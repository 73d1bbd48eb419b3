-- ===== src/Orchestrator/Modes.antt =====
-- src/orchestrator.py: `_check_file_overlap`, and the mode that follows from it.
use text.Mathlib.TextEquality.{eq_iff}
use aieos_agent_harness.Base.{
  String, string_eq, ◌≡◌, ◌≢◌, refl, ◌↔◌, Bool, true, false, ◌&&◌, Bool-cases, inl, inr, List, [],
  ◌∷◌, ◌++◌, ◌==◌, arith,
}
use aieos_agent_harness.Base.Lists.{contains, keep, All, List-cases}
use aieos_agent_harness.Orchestrator.Groups.{
  shared_files, overlaps_with, check_file_overlap, mode_of,
}
use aieos_agent_harness.Wdd.{ExecutionItem, ExecutionGroup}

-- No file is touched by both.
abbrev pub AreDisjoint : ExecutionItem → ExecutionItem → Type 0
AreDisjoint a b =
    (f : String) → contains a.files_touched f ≡ true → contains b.files_touched f ≡ false

-- No two items of the list touch the same file.
abbrev pub ArePairwise : List ExecutionItem → Type 0
ArePairwise [] = Unit
ArePairwise (a ∷ rest) = All (AreDisjoint a) rest × ArePairwise rest

keep-contains :
    (p : String → Bool) (xs : List String) (x : String)
    → contains (keep p xs) x ≡ (contains xs x && p x)
unfolding keep contains
keep-contains p [] x = refl
keep-contains p (y ∷ xs) x = elim (Bool-cases (x == y)) [
  | inl e ↦ ground (arith, keep-contains p xs x, e)
  | inr e ↦ ground (arith, keep-contains p xs x, e)
]

empty_iff : (xs : List String) → (xs ≡ []) ↔ ((x : String) → contains xs x ≡ false)
unfolding contains
empty_iff [] = (λ e x. refl, λ h. refl)
empty_iff (y ∷ xs) = (λ e x. cc, λ h. absurd (let k = h y in ground arith))

shared_files_iff : (a b : ExecutionItem) → (shared_files a b ≡ []) ↔ AreDisjoint a b
unfolding shared_files
shared_files_iff a b = (
  λ e f m.
      let k = (empty_iff (keep (contains b.files_touched) a.files_touched)).0 e f in
      ground (arith, k, keep-contains (contains b.files_touched) a.files_touched f),
  λ h. (empty_iff (keep (contains b.files_touched) a.files_touched)).1 (λ f.
      let k = h f in ground (arith, keep-contains (contains b.files_touched) a.files_touched f)),
)

overlaps_with_iff :
    (a : ExecutionItem) (items : List ExecutionItem)
    → (overlaps_with a items ≡ []) ↔ All (AreDisjoint a) items
unfolding overlaps_with
overlaps_with_iff a [] = (λ e. tt, λ h. refl)
overlaps_with_iff a (b ∷ rest) = elim (List-cases (shared_files a b)) [
  | inl e ↦
      rw (e, overlaps_with)
        (
          λ h. ((shared_files_iff a b).0 e, (overlaps_with_iff a rest).0 h),
          λ h. (overlaps_with_iff a rest).1 h.1,
        )
  | inr (f, fs, e) ↦
      rw (e, overlaps_with)
        (λ h. absurd (cc), λ h. absurd (let k = (shared_files_iff a b).1 h.0 in cc))
]

append_nil_iff : {A : Type 0} (xs ys : List A) → (xs ++ ys ≡ []) ↔ ((xs ≡ []) × (ys ≡ []))
append_nil_iff [] ys = (λ e. (refl, e), λ h. h.1)
append_nil_iff (x ∷ xs) ys = (λ e. absurd (cc), λ h. absurd (let k = h.0 in cc))

-- `_check_file_overlap` reports nothing exactly when no two items of the group touch the same file.
pub check_file_overlap_iff :
    (items : List ExecutionItem) → (check_file_overlap items ≡ []) ↔ ArePairwise items
unfolding check_file_overlap
check_file_overlap_iff [] = (λ e. tt, λ h. refl)
check_file_overlap_iff (a ∷ rest) =
    let both = append_nil_iff (overlaps_with a rest) (check_file_overlap rest) in
    let head = overlaps_with_iff a rest in
    let tail = check_file_overlap_iff rest in
    (
      λ e. let parts = both.0 e in (head.0 parts.0, tail.0 parts.1),
      λ h. both.1 (head.1 h.0, tail.1 h.1),
    )

sync-ne : ◌≢◌ {A = String} "phase_sync" "independent"
sync-ne e = let k = (eq_iff "phase_sync" "independent").1 e in cc

-- A group whose items all run at once, in mode B, has no two items that touch the same file.
pub mode_of-Pairwise :
    (group : ExecutionGroup) → mode_of group ≡ "independent" → ArePairwise group.items
unfolding mode_of
mode_of-Pairwise group h = elim (List-cases (check_file_overlap group.items)) [
  | inl e ↦ (check_file_overlap_iff group.items).0 e
  | inr (o, os, e) ↦ absurd (sync-ne (ground (arith, e, h)))
]
