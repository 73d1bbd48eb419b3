-- ===== src/State/RoundTrip.antt =====
-- src/state.py: a Status cell after it was written.
use Prim.Native.Char.{Char, code}
use Prim.Native.String.{String}
use aieos_agent_harness.Base.{
  ◌-◌, ◌≡◌, ◌≢◌, refl, sym, ap, ◌∙◌, inl, inr, true, Option-cases, none, some, List, arith,
}
use aieos_agent_harness.Base.Lists.{All}
use aieos_agent_harness.State.Cells.{
  escaped, Token, fold, is_space, skip_spaces, open_cell, lazy_value, cell_at, cell, set_cell,
  text_size, upto,
}
use aieos_agent_harness.State.Bars.{glue, IsPlain, is_some}
use aieos_agent_harness.State.Heads.{
  glue_assoc, text_size-glue, upto-glue, open_cell-Ends, open_glue_any, closes-glue, cell_at-glue,
}
use aieos_agent_harness.State.Values.{is_value, is_inner, written, written_read}
use aieos_agent_harness.Base.Dict
use aieos_agent_harness.Base.Dict.{Dict}
use aieos_agent_harness.Adapter.{ok}
use aieos_agent_harness.Models.{ArtifactStatus, draft}
use aieos_agent_harness.State.{
  Disk, find_artifact_path, write_artifact_status, status_label, status_value, parse_status,
  status_named, same_codes, normalized, codes, upper,
}
use aieos_agent_harness.State.Files.{write_artifact_status-local}
use aieos_agent_harness.Base.{String, string_eq}

-- What `set_cell` does to a text: at the first match, it replaces what stands behind the match's
-- head. The text is then read as the value.
record Written (ts : List Token) (v s : String) : Type 0 where
  first : Char
  code_first : code first ≡ 124
  last : Char
  code_last : code last ≡ 124
  before : String
  head : String
  old : String
  new : String
  was : s ≡ glue before (String.◌∷◌ first (glue head (String.◌∷◌ last old)))
  is : set_cell ts v s ≡ glue before (String.◌∷◌ first (glue head (String.◌∷◌ last new)))
  read : cell ts (set_cell ts v s) ≡ some v

cell_at-first :
    (ts : List Token) (s after v rest : String)
    → open_cell ts s ≡ some after
    → lazy_value (skip_spaces after) ≡ some (v, rest)
    → s ≢ ""
    → cell ts s ≡ some v
unfolding cell cell_at
cell_at-first ts String.[] after v rest o l n = absurd (n refl)
cell_at-first ts (String.◌∷◌ c s) after v rest o l n = rw (o, l, cell_at, cell) refl

set_cell-first :
    (ts : List Token) (v : String) (d : Char) (s after x rest : String)
    → cell_at ts (String.◌∷◌ d s) ≡ some (after, x, rest)
    → set_cell ts v (String.◌∷◌ d s)
      ≡ upto (text_size (String.◌∷◌ d s) - text_size after) (String.◌∷◌ d s) (written v rest)
unfolding set_cell
set_cell-first ts v d s after x rest e = rw (e, set_cell) refl

upto_before : (u s t : String) → upto (text_size (glue u s) - text_size s) (glue u s) t ≡ glue u t
upto_before u s t =
    let size : text_size (glue u s) - text_size s ≡ text_size u =
      let k = text_size-glue u s in omega (arith, k) in
    rw size (upto-glue u s t)

cell_at-some :
    (ts : List Token) (s after x rest : String)
    → cell_at ts s ≡ some (after, x, rest)
    → open_cell ts s ≡ some after
unfolding cell_at
cell_at-some ts s after x rest e = ground arith

write_first :
    (ts : List Token) (v : String) (d : Char) (s after x rest : String)
    → All IsPlain ts
    → is_value v ≡ true
    → cell_at ts (String.◌∷◌ d s) ≡ some (after, x, rest)
    → Written ts v (String.◌∷◌ d s)
unfolding glue
write_first ts v d s after x rest plain good e =
    let o = cell_at-some ts (String.◌∷◌ d s) after x rest e in
    let (c, h, b, code_c, code_b, at) = open_cell-Ends ts (String.◌∷◌ d s) after o in
    let new = written v rest in
    let whole_at : String.◌∷◌ d s ≡ glue (String.◌∷◌ c (glue h (String.◌∷◌ b ""))) after =
      at ∙ ap (String.◌∷◌ c) (sym (glue_assoc h (String.◌∷◌ b "") after)) in
    let cut : set_cell ts v (String.◌∷◌ d s) ≡ String.◌∷◌ c (glue h (String.◌∷◌ b new)) =
      set_cell-first ts v d s after x rest e
      ∙ ap (λ t. upto (text_size t - text_size after) t new) whole_at
      ∙ upto_before (String.◌∷◌ c (glue h (String.◌∷◌ b ""))) after new
      ∙ ap (String.◌∷◌ c) (glue_assoc h (String.◌∷◌ b "") new) in
    let opens = open_glue_any ts c b h after plain code_b (ap (open_cell ts) (sym at) ∙ o) new in
    record {
      first = c;
      code_first = code_c;
      last = b;
      code_last = code_b;
      before = "";
      head = h;
      old = after;
      new = new;
      was = at;
      is = cut;
      read =
          ap (cell ts) cut
          ∙ cell_at-first ts (String.◌∷◌ c (glue h (String.◌∷◌ b new))) new v rest opens
              (written_read v rest good) (λ q. cc);
    }

set_cell-later :
    (ts : List Token) (v : String) (d : Char) (s : String)
    → cell_at ts (String.◌∷◌ d s) ≡ none
    → set_cell ts v (String.◌∷◌ d s) ≡ String.◌∷◌ d (set_cell ts v s)
unfolding set_cell
set_cell-later ts v d s e = rw (e, set_cell) refl

cell-later :
    (ts : List Token) (d : Char) (s : String)
    → cell_at ts (String.◌∷◌ d s) ≡ none
    → cell ts (String.◌∷◌ d s) ≡ cell ts s
unfolding cell
cell-later ts d s e = rw (e, cell) refl

cell_at-none :
    (ts : List Token) (s t : String)
    → is_some (cell_at ts s) ≡ is_some (cell_at ts t)
    → cell_at ts s ≡ none
    → cell_at ts t ≡ none
cell_at-none ts s t same e = ground arith

write_later :
    (ts : List Token) (v : String) (d : Char) (s : String)
    → All IsPlain ts
    → cell_at ts (String.◌∷◌ d s) ≡ none
    → Written ts v s
    → Written ts v (String.◌∷◌ d s)
unfolding glue
write_later ts v d s plain e r =
    let y = glue r.head (String.◌∷◌ r.last r.old) in
    let z = glue r.head (String.◌∷◌ r.last r.new) in
    let same =
      cell_at-glue r.first r.code_first ts d r.before y z plain
        (closes-glue r.last r.code_last r.head r.old r.new) in
    let still : cell_at ts (String.◌∷◌ d (set_cell ts v s)) ≡ none =
      ap (λ t. cell_at ts (String.◌∷◌ d t)) r.is
      ∙ cell_at-none ts (String.◌∷◌ d (glue r.before (String.◌∷◌ r.first y)))
          (String.◌∷◌ d (glue r.before (String.◌∷◌ r.first z))) same
          (sym (ap (λ t. cell_at ts (String.◌∷◌ d t)) r.was) ∙ e) in
    let moved = set_cell-later ts v d s e in
    record {
      first = r.first;
      code_first = r.code_first;
      last = r.last;
      code_last = r.code_last;
      before = String.◌∷◌ d r.before;
      head = r.head;
      old = r.old;
      new = r.new;
      was = ap (String.◌∷◌ d) r.was;
      is = moved ∙ ap (String.◌∷◌ d) r.is;
      read = ap (cell ts) moved ∙ cell-later ts d (set_cell ts v s) still ∙ r.read;
    }

cell_empty : (ts : List Token) → cell ts "" ≡ none
unfolding cell
cell_empty ts = refl

write :
    (ts : List Token) (v s : String)
    → All IsPlain ts
    → is_value v ≡ true
    → cell ts s ≢ none
    → Written ts v s
write ts v String.[] plain good n = absurd (n (cell_empty ts))
write ts v (String.◌∷◌ d s) plain good n =
    let later = λ (m : cell ts s ≢ none). write ts v s plain good m in
    elim (Option-cases (cell_at ts (String.◌∷◌ d s))) [
      | inl e ↦ write_later ts v d s plain e (later (λ k. n (cell-later ts d s e ∙ k)))
      | inr ((after, x, rest), e) ↦ write_first ts v d s after x rest plain good e
    ]

-- In any text that has a cell of a label that has no bar, the cell reads as a value
-- once the value is written to it; the value is without bars and line breaks, and has no outer space.
pub cell-set_cell :
    (ts : List Token) (v s : String)
    → All IsPlain ts
    → is_value v ≡ true
    → cell ts s ≢ none
    → cell ts (set_cell ts v s) ≡ some v
cell-set_cell ts v s plain good n = (write ts v s plain good n).read

status_label-IsPlain : All IsPlain status_label
unfolding escaped fold
status_label-IsPlain = ground arith

status_value-is_value : (status : ArtifactStatus) → is_value (status_value status) ≡ true
unfolding status_value is_value is_inner is_space
status_value-is_value draft = refl
status_value-is_value _ = refl

parse_status-status_value : (status : ArtifactStatus) → parse_status (status_value status) ≡ status
unfolding status_value parse_status status_named same_codes normalized codes upper
parse_status-status_value draft = refl
parse_status-status_value _ = refl

-- Where the file of an artifact is found and has a Status cell, `write_artifact_status` succeeds, and the
-- file then holds a text whose Status cell reads back as the status that was written, whatever
-- else stands in it.
pub write_artifact_status-parse_status :
    (disk : Disk) (aid name text : String) (status : ArtifactStatus) (files : Dict String String)
    → disk.sdlc ≡ some files
    → find_artifact_path disk aid ≡ ok (name, text)
    → cell status_label text ≢ none
    → ((write_artifact_status disk aid status).0 ≡ ok name)
      × ((t raw : String) × (elim (write_artifact_status disk aid status).1.sdlc [
        | none ↦ none
        | some fs ↦ Dict.get fs name
      ]
            ≡ some t)
          × (cell status_label t ≡ some raw)
          × (parse_status raw ≡ status))
write_artifact_status-parse_status disk aid name text status files s f c =
    let (done, held) = write_artifact_status-local disk aid name text status files s f c in
    (
      done,
      (
        set_cell status_label (status_value status) text,
        status_value status,
        (let k = held name in ground (arith, k)),
        cell-set_cell status_label (status_value status) text status_label-IsPlain
            (status_value-is_value status) c,
        parse_status-status_value status,
      ),
    )
