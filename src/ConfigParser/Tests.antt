-- ===== src/ConfigParser/Tests.antt =====
-- Configuration lines on examples, and the theorem at a concrete input.
use behind.Base.{◌≡◌, refl, [], ◌∷◌, codes, some, true, false, List, Bytes, Bool}
use behind.Misc.{trimmed, skip_space, drop_space}
use behind.ConfigParser.{
  find_comment, find_unquoted, find_byte, parse_section, parse_value, parse_assignment,
  parse_content, parse_line, parse_lines, Line, Refusal,
}
use behind.ConfigParser.Quoted.{assign, parse_line-assign}

program : Unit {0}
unfolding find_comment find_unquoted find_byte parse_section parse_value parse_assignment
    parse_content parse_line parse_lines trimmed skip_space drop_space
program = tt

-- The assignments of a run, the last one first.
collect : List (Bytes × Bytes) → Bytes → Bytes → Bytes → List (Bytes × Bytes) × Bool
collect c section_name key value = ((key, value) ∷ c, true)

line_test :
    (parse_line (codes " port = 53 ; the port") ≡ Line.assignment (codes "port") (codes "53"))
    × (parse_line (codes "[ server ] # x") ≡ Line.section (codes "server"))
    × (parse_line (codes "# x") ≡ Line.blank)
    × (parse_line (codes "a = \"b\" c") ≡ Line.refused Refusal.text_after_value)
    × (parse_line (codes "a = 'b") ≡ Line.refused Refusal.unterminated_quote)
unfolding program
line_test = (refl, refl, refl, refl, refl)

lines_test :
    parse_lines collect [] [] (codes "[s]" ∷ codes "a=1" ∷ codes "b" ∷ codes "c=2" ∷ []) false
    ≡ ((codes "a", codes "1") ∷ ([], []) ∷ [], some Refusal.no_assignment)
unfolding program collect
lines_test = refl

parse_line-assign_example :
    parse_line (assign (codes "server.name") (codes "a;b#c='d'"))
    ≡ Line.assignment (codes "server.name") (codes "a;b#c='d'")
parse_line-assign_example =
    parse_line-assign (codes "server.name") (codes "a;b#c='d'") refl refl refl
