-- ===== src/Expansion/Fresh.antt =====
-- The modules that `get_compatible_base_module_mmds` of module_build_service/common/resolve.py
-- gives.
use fm_orchestrator.Common.{
  ◌≡◌, refl, sym, subst, Bool, true, false, All, All-map, String, List, [], ◌∷◌, ◌++◌, map,
  string_eq, eq_iff, arith, inl, inr, Bool-cases,
}
use fm_orchestrator.Models.{BuildState}
use fm_orchestrator.Expansion.Compatible.{
  BaseModule, base_ns, CompatibleQuery, Compatible, was_seen, unseen, query_states,
  with_virtual_streams, get_compatible_base_module_mmds,
}

-- The name:stream of each module is not among the names, nor that of a module before it.
abbrev pub IsFresh : List String → List BaseModule → Type 0
IsFresh seen [] = Unit
IsFresh seen (m ∷ ms) = (was_seen seen m ≡ false) × IsFresh (base_ns m ∷ seen) ms

-- What is seen after a list of modules.
abbrev seen_after : List String → List BaseModule → List String
seen_after seen [] = seen
seen_after seen (m ∷ ms) = seen_after (base_ns m ∷ seen) ms

unseen-nil : (seen : List String) → unseen seen [] ≡ ([], seen)
unfolding unseen
unseen-nil seen = refl

unseen-skip :
    (seen : List String) (m : BaseModule) (ms : List BaseModule)
    → was_seen seen m ≡ true
    → unseen seen (m ∷ ms) ≡ unseen seen ms
unfolding unseen
unseen-skip seen m ms e = rw e refl

unseen-take :
    (seen : List String) (m : BaseModule) (ms : List BaseModule)
    → was_seen seen m ≡ false
    → unseen seen (m ∷ ms)
      ≡ (m ∷ (unseen (base_ns m ∷ seen) ms).0, (unseen (base_ns m ∷ seen) ms).1)
unfolding unseen
unseen-take seen m ms e = rw e refl

unseen-IsFresh : (seen : List String) (ms : List BaseModule) → IsFresh seen (unseen seen ms).0
unfolding unseen
unseen-IsFresh seen [] = tt
unseen-IsFresh seen (m ∷ ms) = elim (Bool-cases (was_seen seen m)) [
  | inl e ↦ rw e (unseen-IsFresh seen ms)
  | inr e ↦
      subst (λ r. IsFresh seen r.0) (sym (unseen-take seen m ms e))
        (e, unseen-IsFresh (base_ns m ∷ seen) ms)
]

unseen-seen_after :
    (seen : List String) (ms : List BaseModule)
    → (unseen seen ms).1 ≡ seen_after seen (unseen seen ms).0
unfolding unseen
unseen-seen_after seen [] = refl
unseen-seen_after seen (m ∷ ms) = elim (Bool-cases (was_seen seen m)) [
  | inl e ↦ rw e (unseen-seen_after seen ms)
  | inr e ↦ rw e (unseen-seen_after (base_ns m ∷ seen) ms)
]

IsFresh-append :
    (seen : List String) (ms ns : List BaseModule)
    → IsFresh seen ms
    → IsFresh (seen_after seen ms) ns
    → IsFresh seen (ms ++ ns)
IsFresh-append seen [] ns h k = k
IsFresh-append seen (m ∷ ms) ns h k = (h.0, IsFresh-append (base_ns m ∷ seen) ms ns h.1 k)

seen_after-append :
    (seen : List String) (ms ns : List BaseModule)
    → seen_after seen (ms ++ ns) ≡ seen_after (seen_after seen ms) ns
seen_after-append seen [] ns = refl
seen_after-append seen (m ∷ ms) ns = seen_after-append (base_ns m ∷ seen) ms ns

-- Each module of the second list has a name:stream that is among the names, or that of one of the
-- first list.
abbrev pub Covers : List String → List BaseModule → List BaseModule → Type 0
Covers seen ms = All (λ m. was_seen (seen_after seen ms) m ≡ true)

was_seen-seen_after :
    (seen : List String) (ms : List BaseModule) (m : BaseModule)
    → was_seen seen m ≡ true
    → was_seen (seen_after seen ms) m ≡ true
was_seen-seen_after seen [] m h = h
was_seen-seen_after seen (n ∷ ms) m h = was_seen-seen_after (base_ns n ∷ seen) ms m (ground arith)

was_seen-own : (seen : List String) (m : BaseModule) → was_seen (base_ns m ∷ seen) m ≡ true
was_seen-own seen m = let same = (eq_iff (base_ns m) (base_ns m)).1 refl in ground arith

unseen-Covers : (seen : List String) (ms : List BaseModule) → Covers seen (unseen seen ms).0 ms
unseen-Covers seen [] = tt
unseen-Covers seen (m ∷ ms) = elim (Bool-cases (was_seen seen m)) [
  | inl e ↦
      subst (λ r. Covers seen r.0 (m ∷ ms)) (sym (unseen-skip seen m ms e))
        (was_seen-seen_after seen (unseen seen ms).0 m e, unseen-Covers seen ms)
  | inr e ↦
      let seen' = base_ns m ∷ seen in
      subst (λ r. Covers seen r.0 (m ∷ ms)) (sym (unseen-take seen m ms e))
        (
          was_seen-seen_after seen' (unseen seen' ms).0 m (was_seen-own seen m),
          unseen-Covers seen' ms,
        )
]

-- Each module has the name:stream of one of the answer.
abbrev pub ComeFrom : List BaseModule → List BaseModule → Type 0
ComeFrom answer = All (λ m. was_seen (map base_ns answer) m ≡ true)

ComeFrom-weaken :
    (n : BaseModule) (answer ms : List BaseModule) → ComeFrom answer ms → ComeFrom (n ∷ answer) ms
ComeFrom-weaken n answer ms =
    All-map (λ m. was_seen (map base_ns answer) m ≡ true)
      (λ m. was_seen (map base_ns (n ∷ answer)) m ≡ true) ms (λ m h. ground arith)

unseen-ComeFrom : (seen : List String) (ms : List BaseModule) → ComeFrom ms (unseen seen ms).0
unseen-ComeFrom seen [] = subst (λ r. ComeFrom [] r.0) (sym (unseen-nil seen)) tt
unseen-ComeFrom seen (m ∷ ms) = elim (Bool-cases (was_seen seen m)) [
  | inl e ↦
      subst (λ r. ComeFrom (m ∷ ms) r.0) (sym (unseen-skip seen m ms e))
        (ComeFrom-weaken m ms (unseen seen ms).0 (unseen-ComeFrom seen ms))
  | inr e ↦
      let seen' = base_ns m ∷ seen in
      subst (λ r. ComeFrom (m ∷ ms) r.0) (sym (unseen-take seen m ms e))
        (
          was_seen-own (map base_ns ms) m,
          ComeFrom-weaken m ms (unseen seen' ms).0 (unseen-ComeFrom seen' ms),
        )
]

-- What a query adds to the modules before it.
pub record IsAdded (seen : List String) (before answer added : List BaseModule) : Type 0 where
  pub from_answer : ComeFrom answer added
  pub covers : Covers seen (before ++ added) answer

-- Garbage modules are asked for where modules need not be compatible.
abbrev pub GarbageOf :
    CompatibleQuery
    → Bool
    → BaseModule
    → List String
    → List String
    → (others garbage : List BaseModule) → Type 0
GarbageOf query true base streams seen others garbage = garbage ≡ []
GarbageOf query false base streams seen others garbage =
    IsAdded seen others (query base false streams BuildState.garbage) garbage

-- Nothing is asked for where the base module has no virtual streams.
abbrev pub AnswersOf :
    CompatibleQuery
    → Bool
    → BaseModule
    → List String
    → List String
    → (others garbage : List BaseModule) → Type 0
AnswersOf query only_compatible base [] seen others garbage = others ++ garbage ≡ []
AnswersOf query only_compatible base (v ∷ vs) seen others garbage =
    IsAdded seen [] (query base only_compatible (v ∷ vs) BuildState.ready) others
    × GarbageOf query only_compatible base (v ∷ vs) seen others garbage

-- The base module is the first of the ready ones. Behind it, each module has a name:stream that is
-- not ignored and that no module before it has, and the modules are those of the answers.
pub record IsCompatible (query : CompatibleQuery) (only_compatible : Bool) (base : BaseModule)
    (virtual_streams ignore_ns : List String) (result : Compatible) : Type 0 where
  pub others : List BaseModule
  pub ready : result.ready ≡ base ∷ others
  pub fresh : IsFresh (base_ns base ∷ ignore_ns) (others ++ result.garbage)
  pub answers :
      AnswersOf query only_compatible base virtual_streams
        (base_ns base ∷ ignore_ns)
        others
        result.garbage

unseen-IsAdded :
    (seen : List String) (before answer : List BaseModule)
    → IsAdded seen before answer (unseen (seen_after seen before) answer).0
unseen-IsAdded seen before answer =
    let added = (unseen (seen_after seen before) answer).0 in
    record {
      from_answer = unseen-ComeFrom (seen_after seen before) answer;
      covers =
          subst (λ names. All (λ m. was_seen names m ≡ true) answer)
            (sym (seen_after-append seen before added))
            (unseen-Covers (seen_after seen before) answer);
    }

module _ (query : CompatibleQuery) (base : BaseModule) (ignore_ns : List String) where
  abbrev seen : List String
  seen = base_ns base ∷ ignore_ns

  query_states-IsCompatible :
      (only_compatible : Bool) (v : String) (vs : List String)
      → IsCompatible query only_compatible base
          (v ∷ vs)
          ignore_ns
          (query_states query only_compatible base (v ∷ vs) seen)
  query_states-IsCompatible true v vs =
      let answer = query base true (v ∷ vs) BuildState.ready in
      let others = (unseen seen answer).0 in
      record {
        others = others;
        ready = refl;
        fresh = IsFresh-append seen others [] (unseen-IsFresh seen answer) tt;
        answers = (unseen-IsAdded seen [] answer, refl);
      }
  query_states-IsCompatible false v vs =
      let answer = query base false (v ∷ vs) BuildState.ready in
      let more = query base false (v ∷ vs) BuildState.garbage in
      let others = (unseen seen answer).0 in
      let same = sym (unseen-seen_after seen answer) in
      record {
        others = others;
        ready = refl;
        fresh =
            IsFresh-append seen others (unseen (unseen seen answer).1 more).0
              (unseen-IsFresh seen answer)
              (subst (λ names. IsFresh (seen_after seen others) (unseen names more).0) same
                (unseen-IsFresh (seen_after seen others) more));
        answers = (
          unseen-IsAdded seen [] answer,
          subst (λ names. IsAdded seen others more (unseen names more).0) same
              (unseen-IsAdded seen others more),
        );
      }

  with_virtual_streams-IsCompatible :
      (only_compatible : Bool) (virtual_streams : List String)
      → IsCompatible query only_compatible base virtual_streams ignore_ns
          (with_virtual_streams query only_compatible base virtual_streams seen)
  with_virtual_streams-IsCompatible only_compatible [] = record {
    others = [];
    ready = refl;
    fresh = tt;
    answers = refl;
  }
  with_virtual_streams-IsCompatible only_compatible (v ∷ vs) =
      query_states-IsCompatible only_compatible v vs

  -- get_compatible_base_module_mmds gives the base module first among the ready ones. Behind it,
  -- through the ready and then the garbage modules, each has a name:stream that is not ignored
  -- and that no module before it has. Where the base module has virtual streams, the modules have
  -- a name:stream of the resolver's answers, and each module of an answer has its name:stream
  -- among those, the base module's or the ignored ones; garbage modules are given only where
  -- modules need not be compatible. Without virtual streams, the base module is alone.
  pub base_mmds-IsCompatible :
      (only_compatible : Bool)
      → IsCompatible query only_compatible base base.virtual_streams ignore_ns
          (get_compatible_base_module_mmds query only_compatible base ignore_ns)
  unfolding get_compatible_base_module_mmds
  base_mmds-IsCompatible only_compatible =
      with_virtual_streams-IsCompatible only_compatible base.virtual_streams
