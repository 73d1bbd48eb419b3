-- ===== src/Lifecycle/Priority.antt =====
-- src/lifecycle.py: when a binding is found, and the priority of the exact ones.
use aieos_agent_harness.Base.{
  String, string_eq, ◌≡◌, refl, ap, ◌∙◌, ◌↔◌, ◌⊎◌, ◌≢◌, inl, inr, Bool-cases, none, Option-cases,
  List, [], ◌∷◌, ◌++◌, ◌==◌, arith,
}
use aieos_agent_harness.Base.Dict
use aieos_agent_harness.Base.Dict.{Dict}
use aieos_agent_harness.Base.Lists.{All, keep, List-cases}
use aieos_agent_harness.Models.{LifecycleEvent, event_eq}
use aieos_agent_harness.Adapter.{Adapter}
use aieos_agent_harness.Lifecycle.{EventBinding, LifecycleBinder, Resolved, named, collect, resolve}

module _ {W K : Type 0} (adapters : Dict String (Adapter W)) (event : LifecycleEvent)
    (type : String) where
  -- None of the names has an adapter.
  abbrev pub AllUnknown : EventBinding K → Type 0
  AllUnknown b = All (λ name. Dict.get adapters name ≡ none) b.adapter_names

  -- Every binding of the event for this type or for all types names no adapter that is there.
  abbrev pub NoneBound : List (EventBinding K) → Type 0
  NoneBound =
      All (λ b. b.event ≡ event → (b.artifact_type ≡ type) ⊎ (b.artifact_type ≡ "*") → AllUnknown b)

  append-nil : (xs ys : List (Resolved W K)) → (xs ++ ys ≡ []) ↔ ((xs ≡ []) × (ys ≡ []))
  append-nil [] ys = (λ h. (refl, h), λ h. h.1)
  append-nil (x ∷ xs) ys = (λ h. absurd (ground arith), λ h. absurd (ground (arith, h.0)))

  named-nil :
      (b : EventBinding K) (names : List String)
      → (named adapters b names ≡ []) ↔ All (λ name. Dict.get adapters name ≡ none) names
  unfolding named
  named-nil b [] = (λ h. tt, λ h. refl)
  named-nil b (n ∷ names) = elim (Option-cases (Dict.get adapters n)) [
    | inl e ↦ (
      λ h. (e, (named-nil b names).0 (ground arith)),
      λ h. ground (arith, (named-nil b names).1 h.1),
    )
    | inr (a, e) ↦ (λ h. absurd (ground arith), λ h. absurd (ground (arith, h.0)))
  ]

  collect-nil :
      (bs : List (EventBinding K))
      → (((collect adapters event type bs).0 ≡ []) × ((collect adapters event type bs).1 ≡ []))
        ↔ NoneBound bs
  unfolding collect
  collect-nil [] = (λ h. tt, λ h. (refl, refl))
  collect-nil (b ∷ bs) =
      let mine : (named adapters b b.adapter_names ≡ []) ↔ AllUnknown b =
        named-nil b b.adapter_names in
      let found : List (Resolved W K) = named adapters b b.adapter_names in
      let exact : List (Resolved W K) = (collect adapters event type bs).0 in
      let wildcard : List (Resolved W K) = (collect adapters event type bs).1 in
      elim (Bool-cases (b.event == event)) [
        | inr e ↦
            rw (e, collect)
              (
                λ h. (λ here. absurd (ground arith), (collect-nil bs).0 h),
                λ h. (collect-nil bs).1 h.1,
              )
        | inl e ↦ elim (Bool-cases (b.artifact_type == type)) [
          | inl t ↦
              rw (e, t, collect)
                (
                  λ (x, w).
                      let (a, c) = (append-nil found exact).0 x in
                      (λ here kind. mine.0 a, (collect-nil bs).0 (c, w)),
                  λ h.
                      let (x, w) = (collect-nil bs).1 h.1 in
                      let a : found ≡ [] = mine.1 (h.0 (ground arith) (inl (ground arith))) in
                      ((append-nil found exact).1 (a, x), w),
                )
          | inr t ↦ elim (Bool-cases (b.artifact_type == "*")) [
            | inl star ↦
                rw (e, t, star, collect)
                  (
                    λ (x, w).
                        let (a, c) = (append-nil found wildcard).0 w in
                        (λ here kind. mine.0 a, (collect-nil bs).0 (x, c)),
                    λ h.
                        let (x, w) = (collect-nil bs).1 h.1 in
                        let a : found ≡ [] = mine.1 (h.0 (ground arith) (inr (ground arith))) in
                        (x, (append-nil found wildcard).1 (a, w)),
                  )
            | inr star ↦
                rw (e, t, star, collect)
                  (
                    λ h. (λ here kind. absurd (ground arith), (collect-nil bs).0 h),
                    λ h. (collect-nil bs).1 h.1,
                  )
          ]
        ]
      ]

-- An event finds no adapter exactly when every binding of the event for the artifact's type, or for
-- all types, names only adapters that are not there.
pub resolve_none :
    {W K : Type 0} (binder : LifecycleBinder W K) (event : LifecycleEvent) (type : String)
    → (resolve binder event type ≡ []) ↔ NoneBound binder.adapters event type binder.bindings
unfolding resolve
resolve_none binder event type =
    let exact = (collect binder.adapters event type binder.bindings).0 in
    let nil = collect-nil binder.adapters event type binder.bindings in
    (
      λ h. elim (List-cases exact) [
        | inl e ↦ nil.0 (e, ground arith)
        | inr (r, rs, e) ↦ absurd (ground arith)
      ],
      λ h. let (e, w) = nil.1 h in ground arith,
    )

-- The binder with its bindings for exactly this type.
abbrev pub only : {W K : Type 0} → LifecycleBinder W K → String → LifecycleBinder W K
only binder type = record binder { bindings = keep (λ b. b.artifact_type == type) binder.bindings }

collect-keep :
    {W K : Type 0} (adapters : Dict String (Adapter W)) (event : LifecycleEvent) (type : String)
    (bs : List (EventBinding K))
    → collect adapters event type (keep (λ b. b.artifact_type == type) bs)
      ≡ ((collect adapters event type bs).0, [])
unfolding collect keep
collect-keep adapters event type [] = refl
collect-keep adapters event type (b ∷ bs) = elim (Bool-cases (b.artifact_type == type)) [
  | inl t ↦
      rw (t, keep, collect, collect-keep adapters event type bs)
        (elim (Bool-cases (b.event == event)) [ inl e ↦ rw (e, t) refl | inr e ↦ rw e refl ])
  | inr t ↦ rw (t, keep, collect, collect-keep adapters event type bs) (ground arith)
]

resolve-keep :
    {W K : Type 0} (binder : LifecycleBinder W K) (event : LifecycleEvent) (type : String)
    → resolve (only binder type) event type ≡ (collect binder.adapters event type binder.bindings).0
unfolding resolve
resolve-keep binder event type =
    rw (collect-keep binder.adapters event type binder.bindings, resolve)
      (elim (List-cases (collect binder.adapters event type binder.bindings).0) [
        | inl e ↦ rw e (ap (λ t. t.1) (collect-keep binder.adapters event type binder.bindings))
        | inr (r, rs, e) ↦ rw e refl
      ])

-- The bindings for exactly the artifact's type have priority: when they find an adapter, the
-- result is theirs alone, as if the bindings for all types were not there.
pub resolve-only :
    {W K : Type 0} (binder : LifecycleBinder W K) (event : LifecycleEvent) (type : String)
    → resolve (only binder type) event type ≢ []
    → resolve binder event type ≡ resolve (only binder type) event type
unfolding resolve
resolve-only binder event type found =
    let exact = (collect binder.adapters event type binder.bindings).0 in
    elim (List-cases exact) [
      | inl e ↦ absurd (found (resolve-keep binder event type ∙ e))
      | inr (r, rs, e) ↦ rw (resolve-keep binder event type, e, resolve) refl
    ]
