-- ===== src/Ide/Lines/Adjacent.antt =====
-- What two adjacent ranges are together.
use symposium.Prelude.{
  ℕ, suc, ◌^◌, Bool, true, false, ◌+◌, ◌-◌, ◌<◌, ◌≤◌, some, none, List, [], ◌∷◌, ◌++◌, Result, ok,
  last-append, take_add, drop-drop, length-drop, take, drop, length, ◌≡◌, refl, ap, ◌∙◌, arith,
  append_assoc,
}
use symposium.Prelude.Text.{Text, lines, join_with}
use symposium.Dialect.Lexer.{byte_len}
use symposium.Ide.Ranges.{FileRange}
use symposium.Ide.Lines.{Lines, Execution, returned, sub_add, range_of, last_column, execute}

sub_add_ok :
    (overflow_checks : Bool) (a b c : ℕ)
    → b ≤ a
    → a - b + c < 2 ^ 64
    → sub_add overflow_checks a b c ≡ some (a - b + c)
unfolding sub_add
sub_add_ok true a b c h h' = ground arith
sub_add_ok false a b c h h' = ap some (omega arith)

join_with-append :
    (sep : Text) (t : Text) (ts : List Text) (u : Text) (us : List Text)
    → join_with sep (t ∷ ts ++ u ∷ us) ≡ join_with sep (t ∷ ts) ++ sep ++ join_with sep (u ∷ us)
join_with-append sep t [] u us = refl
join_with-append sep t (v ∷ ts) u us =
    ap (λ x. t ++ sep ++ x) (join_with-append sep v ts u us) ∙ simp (append_assoc)

-- A range of a file that was read.
execute_ok :
    (overflow_checks : Bool) (read_to_string : Text → Result Text Text) (l : Lines) (content : Text)
    → read_to_string l.path ≡ ok content
    → 0 < l.start
    → l.start ≤ l.stop
    → l.stop < 2 ^ 64
    → execute overflow_checks read_to_string l
      ≡ returned (
          range_of l.path l.start l.stop
            (take (l.stop - l.start + 1) (drop (l.start - 1) (lines content))))
unfolding execute
execute_ok overflow_checks read_to_string l content e h h' small =
    rw
      (
        e,
        sub_add_ok overflow_checks l.start 1 0 h (omega arith),
        sub_add_ok overflow_checks l.stop l.start 1 h' (omega arith),
        execute,
      )
      (ap
        (λ n.
          returned
            (range_of l.path l.start l.stop (take (l.stop - l.start + 1) (drop n (lines content)))))
        (omega arith))

last_column-append :
    (ls : List Text) (y : Text) (ys : List Text) → last_column (ls ++ y ∷ ys) ≡ last_column (y ∷ ys)
unfolding last_column
last_column-append ls y ys =
    ap (λ o. elim o [ some l ↦ byte_len l | none ↦ 0 ]) (last-append ls y ys)

range_of-append :
    (path : Text) (a b c : ℕ) (ls ms : List Text)
    → 0 < length ls
    → 0 < length ms
    → range_of path a c (ls ++ ms) ≡ record {
      path = path;
      start = (range_of path a b ls).start;
      stop = (range_of path (b + 1) c ms).stop;
      content = some (join_with (10 ∷ []) ls ++ 10 ∷ [] ++ join_with (10 ∷ []) ms);
    }
unfolding range_of
range_of-append path a b c [] ms h h' = elim h [ ]
range_of-append path a b c (x ∷ xs) [] h h' = elim h' [ ]
range_of-append path a b c (x ∷ xs) (y ∷ ys) h h' =
    rw (last_column-append (x ∷ xs) y ys, join_with-append (10 ∷ []) x xs y ys)

take_both :
    (a b c : ℕ) (ls : List Text)
    → 0 < a
    → a ≤ b
    → b < c
    → take (c - a + 1) (drop (a - 1) ls)
      ≡ take (b - a + 1) (drop (a - 1) ls) ++ take (c - (b + 1) + 1) (drop (b + 1 - 1) ls)
take_both a b c ls h1 h2 h3 =
    let e : c - a + 1 ≡ b - a + 1 + (c - (b + 1) + 1) = omega arith in
    let e' : a - 1 + (b - a + 1) ≡ b + 1 - 1 = omega arith in
    rw (e, take_add (b - a + 1) (c - (b + 1) + 1) (drop (a - 1) ls), drop-drop, e')

length-take_pos : (n : ℕ) (ls : List Text) → 0 < length ls → 0 < length (take (n + 1) ls)
length-take_pos n [] h = elim h [ ]
length-take_pos n (l ∷ ls) h = let e : n + 1 ≡ suc n = omega arith in rw (e) (omega arith)

-- Both parts are answers, and so is the whole, which joins them.
abbrev pub AreJoined : (Lines → Execution) → (path : Text) (a b c : ℕ) → Type 0
AreJoined run path a b c =
    (r : FileRange) × (s : FileRange) × (x : Text) × (y : Text) × (run
        (record { path = path; start = a; stop = b })
      ≡ returned r)
    × (run (record { path = path; start = b + 1; stop = c }) ≡ returned s)
    × (r.content ≡ some x)
    × (s.content ≡ some y)
    × (run (record { path = path; start = a; stop = c })
        ≡ returned (record {
          path = path;
          start = r.start;
          stop = s.stop;
          content = some (x ++ 10 ∷ [] ++ y);
        }))

-- The lines `a` to `b` of a file and its lines `b + 1` to `c`, with a line break between them, are its
-- lines `a` to `c`, when `1 ≤ a ≤ b < c < 2 ^ 64`, the file can be read and has more than `b` lines: all
-- three executions return, the whole begins where the first part does and ends where the second
-- part does. This holds in a build with overflow checks and in one without.
pub execute_adjacent :
    (overflow_checks : Bool) (read_to_string : Text → Result Text Text) (path : Text) (a b c : ℕ)
    (content : Text)
    → read_to_string path ≡ ok content
    → 0 < a
    → a ≤ b
    → b < c
    → c < 2 ^ 64
    → b < length (lines content)
    → AreJoined (execute overflow_checks read_to_string) path a b c
unfolding range_of
execute_adjacent overflow_checks read_to_string path a b c content e h1 h2 h3 small h4 =
    let ls : List Text = lines content in
    let first : List Text = take (b - a + 1) (drop (a - 1) ls) in
    let second : List Text = take (c - (b + 1) + 1) (drop (b + 1 - 1) ls) in
    (
      range_of path a b first,
      range_of path (b + 1) c second,
      join_with (10 ∷ []) first,
      join_with (10 ∷ []) second,
      execute_ok overflow_checks read_to_string (record { path = path; start = a; stop = b })
          content e h1 h2 (omega arith),
      execute_ok overflow_checks read_to_string (record { path = path; start = b + 1; stop = c })
          content e (omega arith) (omega arith) small,
      refl,
      refl,
      execute_ok overflow_checks read_to_string (record { path = path; start = a; stop = c })
            content e h1 (omega arith) small
          ∙ ap (λ ls'. returned (range_of path a c ls')) (take_both a b c ls h1 h2 h3)
          ∙ ap returned (
              range_of-append path a b c first second
                (length-take_pos (b - a) (drop (a - 1) ls) (omega (arith, length-drop (a - 1) ls)))
                (length-take_pos (c - (b + 1)) (drop (b + 1 - 1) ls)
                  (omega (arith, length-drop (b + 1 - 1) ls)))),
    )
