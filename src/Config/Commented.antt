-- ===== src/Config/Commented.antt =====
-- The pass of export_documented over the written tree.
use pow_server.Prelude.{
  ◌≡◌, ◌⊎◌, refl, ◌∙◌, false, List, [], ◌∷◌, ◌++◌, Text, ◌==◌, map, arith, ap, All, All-append,
  append-nil, append_assoc, Bool-cases, inl, inr,
}
use pow_server.Config.Export.{
  line_feed, lines_from, is_setting, comment_line, write_lines, comment_out,
}

-- A line that a TOML reader skips or takes for a header.
abbrev pub IsInert : Text → Type 0
IsInert [] = Unit
IsInert (c ∷ s) = (c ≡ b'#') ⊎ (c ≡ b'[')

-- A line holds no line feed.
abbrev pub IsLine : Text → Type 0
IsLine = All (λ c. (c == line_feed) ≡ false)

lines_from-append :
    (l rest cur : Text) → IsLine l → lines_from cur (l ++ rest) ≡ lines_from (cur ++ l) rest
unfolding lines_from
lines_from-append [] rest cur h = rw append-nil
lines_from-append (c ∷ l) rest cur h =
    rw (h.0, lines_from)
      (lines_from-append l rest (cur ++ c ∷ []) h.1
        ∙ ap (λ before. lines_from before rest) (append_assoc cur (c ∷ []) l))

-- Reading back the lines that were written gives them.
pub lines_from-write_lines : (ls : List Text) → All IsLine ls → lines_from [] (write_lines ls) ≡ ls
unfolding write_lines lines_from
lines_from-write_lines [] h = refl
lines_from-write_lines (l ∷ ls) h =
    lines_from-append l (line_feed ∷ write_lines ls) [] h.0
    ∙ ap (◌∷◌ l) (lines_from-write_lines ls h.1)

lines_from-IsLine : (s cur : Text) → IsLine cur → All IsLine (lines_from cur s)
unfolding lines_from
lines_from-IsLine [] [] h = tt
lines_from-IsLine [] (d ∷ cur) h = (h, tt)
lines_from-IsLine (c ∷ s) cur h = elim (Bool-cases (c == line_feed)) [
  | inl ends ↦ rw (ends, lines_from) (h, lines_from-IsLine s [] tt)
  | inr goes_on ↦
      rw (goes_on, lines_from)
        (lines_from-IsLine s (cur ++ c ∷ [])
          (All-append (λ d. (d == line_feed) ≡ false) cur (c ∷ []) h (goes_on, tt)))
]

comment_line-IsInert : (l : Text) → IsInert (comment_line l)
unfolding comment_line
comment_line-IsInert [] = tt
comment_line-IsInert (c ∷ l) = ground arith

comment_line-IsLine : (l : Text) → IsLine l → IsLine (comment_line l)
unfolding comment_line
comment_line-IsLine [] h = tt
comment_line-IsLine (c ∷ l) h = elim (Bool-cases (is_setting (c ∷ l))) [
  | inl setting ↦ rw (setting, comment_line) (refl, h)
  | inr inert ↦ rw (inert, comment_line) h
]

All-map :
    (ls : List Text)
    → All IsLine ls
    → All IsLine (map comment_line ls) × All IsInert (map comment_line ls)
All-map [] h = (tt, tt)
All-map (l ∷ ls) h =
    let (kept, inert) = All-map ls h.1 in
    ((comment_line-IsLine l h.0, kept), (comment_line-IsInert l, inert))

lines-comment_out : (s : Text) → lines_from [] (comment_out s) ≡ map comment_line (lines_from [] s)
unfolding comment_out
lines-comment_out s =
    lines_from-write_lines (map comment_line (lines_from [] s))
      (All-map (lines_from [] s) (lines_from-IsLine s [] tt)).0

-- Whatever tree is written, each line of the exported configuration is empty, a comment or a table
-- header, so a reader finds no setting in it.
pub comment_out-IsInert : (s : Text) → All IsInert (lines_from [] (comment_out s))
comment_out-IsInert s =
    rw (lines-comment_out s) (All-map (lines_from [] s) (lines_from-IsLine s [] tt)).1
