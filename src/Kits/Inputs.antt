-- ===== src/Kits/Inputs.antt =====
-- src/inputs.py and src/cli.py: what is found, and when a generation is refused.
use aieos_agent_harness.Base.{
  String, ◌<>◌, string_eq, option_eq, ◌≡◌, refl, ◌∙◌, Bool, true, false, ◌&&◌, Bool-cases,
  Option-cases, inl, inr, Option, none, some, List, [], ◌∷◌, ◌==◌, if◌then◌else◌, arith,
}
use aieos_agent_harness.Base.Dict
use aieos_agent_harness.Base.Dict.{Dict}
use aieos_agent_harness.Base.Lists.{All, any}
use aieos_agent_harness.Adapter.{Outcome, ok, err}
use aieos_agent_harness.State.{Disk}
use aieos_agent_harness.Kits.{
  Kit, KitFiles, look_in, search_kits, resolve_kit_files, frozen_id, collect_frozen,
  collect_upstream_artifacts, DeclaredInput, resolve_inputs, or_kept,
}

abbrev pub refuses : {A : Type 0} → Outcome String A → Bool
refuses (ok _) = false
refuses (err _) = true

-- A declared framework input that has no file.
abbrev pub is_missing : (String → Option String) → DeclaredInput → Bool
is_missing framework i = i.source == "framework" && framework i.ref == none

-- The declared inputs are refused exactly when one of the framework's has no file; a missing human
-- input, or one of another source, never refuses.
pub resolve_inputs-refuses :
    (framework human : String → Option String) (inputs : List DeclaredInput)
    (resolved : Dict String String)
    → refuses (resolve_inputs framework human inputs resolved) ≡ any (is_missing framework) inputs
unfolding resolve_inputs any
resolve_inputs-refuses framework human [] resolved = refl
resolve_inputs-refuses framework human (i ∷ rest) resolved =
    let same = resolve_inputs-refuses framework human rest in
    elim (Bool-cases (i.source == "framework")) [
      | inl e ↦ elim (Option-cases (framework i.ref)) [
        | inl f ↦ rw (e, f, resolve_inputs) (ground (arith, e, f))
        | inr (t, f) ↦ rw (e, f, resolve_inputs) (same _ ∙ ground (arith, e, f))
      ]
      | inr e ↦ elim (Bool-cases (i.source == "human")) [
        | inl h ↦ elim (Option-cases (human i.ref)) [
          | inl f ↦ rw (e, h, f, resolve_inputs) (same resolved)
          | inr (t, f) ↦ rw (e, h, f, resolve_inputs) (same _)
        ]
        | inr h ↦ rw (e, h, resolve_inputs) (same resolved)
      ]
    ]

-- The first spec that is not empty, of the kits in their order; "" where there is none.
unfoldable pub first_spec : String → List Kit → String
first_spec type [] = ""
first_spec type (kit ∷ kits) =
    let later = first_spec type kits in
    elim (kit.read ("docs/specs/" <> type <> "-spec.md")) [
      | none ↦ later
      | some text ↦ if text == "" then later else text
    ]

search_kits-spec :
    (type : String) (kits : List Kit) (found : KitFiles)
    → found.spec ≡ ""
    → (search_kits type kits found).spec ≡ first_spec type kits
unfolding search_kits first_spec look_in or_kept
search_kits-spec type [] found e = e
search_kits-spec type (kit ∷ kits) found e =
    let now = look_in type kit found in
    elim (Bool-cases (now.spec == "")) [
      | inl p ↦
          let q : now.spec ≡ "" = ground arith in
          let rest = search_kits-spec type kits now q in
          rw (p, search_kits) (rest ∙ ground (arith, p, e))
      | inr p ↦ rw (p, search_kits) (ground (arith, p, e))
    ]

-- The spec of an artifact type is the first one that is not empty, over the kits in sorted order.
pub resolve_kit_files-spec :
    (lower : String → String) (kits : List Kit) (artifact_type : String)
    → (resolve_kit_files lower kits artifact_type).spec ≡ first_spec (lower artifact_type) kits
unfolding resolve_kit_files
resolve_kit_files-spec lower kits artifact_type = search_kits-spec (lower artifact_type) kits _ refl

-- An entry whose text is a frozen artifact of that ID.
abbrev pub IsFrozenEntry : String × String → Type 0
IsFrozenEntry (aid, text) = frozen_id text ≡ some aid

insert-All :
    (aid text : String) (d : Dict String String)
    → frozen_id text ≡ some aid
    → All IsFrozenEntry d
    → All IsFrozenEntry (Dict.insert aid text d)
unfolding Dict.insert
insert-All aid text [] e h = (e, tt)
insert-All aid text ((j, t) ∷ d) e h = elim (Bool-cases (aid == j)) [
  | inl p ↦ rw p (e, h.1)
  | inr p ↦ rw p (h.0, insert-All aid text d e h.1)
]

collect_frozen-All :
    (files artifacts : Dict String String)
    → All IsFrozenEntry artifacts
    → All IsFrozenEntry (collect_frozen files artifacts)
unfolding collect_frozen
collect_frozen-All [] artifacts h = h
collect_frozen-All ((n, text) ∷ files) artifacts h = elim (Option-cases (frozen_id text)) [
  | inl e ↦ rw (e, collect_frozen) (collect_frozen-All files artifacts h)
  | inr (aid, e) ↦
      rw (e, collect_frozen) (collect_frozen-All files _ (insert-All aid text artifacts e h))
]

-- Every upstream artifact that a generation is given has a Status cell that says FROZEN, and stands
-- under the ID of its own Artifact ID cell.
pub collect_upstream-Frozen : (disk : Disk) → All IsFrozenEntry (collect_upstream_artifacts disk)
unfolding collect_upstream_artifacts
collect_upstream-Frozen disk = elim (Option-cases disk.sdlc) [
  | inl e ↦ rw e tt
  | inr (files, e) ↦ rw e (collect_frozen-All files [] tt)
]
