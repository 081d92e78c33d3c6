-- ===== src/Systemd/Reading.antt =====
-- src/systemd.rs: what the unit's ExecStart line means by the quoting rules of systemd.syntax(7): an
-- argument in double quotes, in which a backslash stands before a backslash or a quote. A percent
-- sign or a dollar sign would be expanded, and a newline ends the line, so the reader refuses them.
use iroh_proxy.Common.{
  ℕ, ◌≡◌, refl, sym, ap, Bool, true, not, ◌||◌, ◌&&◌, Option, none, some, List, [], ◌∷◌, ◌++◌, map,
  append_assoc, append-nil, ◌∙◌, arith, if◌then◌else◌, nat_eq, All,
}
use iroh_proxy.Common.Text.{Text, text_Keyed}
use iroh_proxy.Systemd.{
  backslash, double_quote, space, needs_escape, escape, quote_systemd_arg, join_args,
}

pub data Mode : Type 0 where
  outside inside escaped broken : Mode

abbrev is_plain_char : ℕ → Bool
is_plain_char c = not (nat_eq c 37 || nat_eq c 36 || nat_eq c 10)

abbrev pub is_plain : Text → Bool
is_plain [] = true
is_plain (c ∷ s) = is_plain_char c && is_plain s

abbrev step : Mode → ℕ → Mode
step outside c =
    if nat_eq c space then outside else if nat_eq c double_quote then inside else broken
step inside c =
    if nat_eq c backslash
    then escaped
    else if nat_eq c double_quote
    then outside
    else if is_plain_char c
    then inside
    else broken
step escaped c = if needs_escape c then inside else broken
step broken c = broken

-- A character of the argument that is being read.
abbrev push : ℕ → Option (List Text) → Option (List Text)
push c none = none
push c (some []) = none
push c (some (arg ∷ args)) = some ((c ∷ arg) ∷ args)

abbrev start : Option (List Text) → Option (List Text)
start none = none
start (some args) = some ([] ∷ args)

abbrev emit : Mode → ℕ → Option (List Text) → Option (List Text)
emit outside c rest = rest
emit inside c rest =
    if nat_eq c backslash then rest else if nat_eq c double_quote then start rest else push c rest
emit escaped c rest = push c rest
emit broken c rest = none

abbrev finish : Mode → Option (List Text)
finish outside = some []
finish inside = none
finish escaped = none
finish broken = none

unfoldable read_from : Mode → Text → Option (List Text)
read_from mode [] = finish mode
read_from mode (c ∷ s) = emit mode c (read_from (step mode c) s)

-- The arguments of a command line.
unfoldable pub read_args : Text → Option (List Text)
unfolding read_from
read_args = read_from outside

abbrev put : Text → Option (List Text) → Option (List Text)
put arg none = none
put arg (some args) = some (arg ∷ args)

push-put : (c : ℕ) (s : Text) (o : Option (List Text)) → push c (put s o) ≡ put (c ∷ s) o
push-put c s none = refl
push-put c s (some args) = refl

start-put : (o : Option (List Text)) → start o ≡ put [] o
start-put none = refl
start-put (some args) = refl

read_from-escape :
    (raw rest : Text)
    → is_plain raw ≡ true
    → read_from inside (escape raw ++ (double_quote ∷ rest)) ≡ put raw (read_from outside rest)
unfolding read_from escape
read_from-escape [] rest h = start-put _
read_from-escape (c ∷ raw) rest h =
    ground (arith, read_from-escape raw rest, push-put c raw (read_from outside rest))

read_from-quote_systemd_arg :
    (raw rest : Text)
    → is_plain raw ≡ true
    → read_from outside (quote_systemd_arg raw ++ rest) ≡ put raw (read_from outside rest)
unfolding read_from quote_systemd_arg
read_from-quote_systemd_arg raw rest h =
    rw (append_assoc (escape raw) (double_quote ∷ []) rest) (read_from-escape raw rest h)

abbrev pub ArePlain : List Text → Type 0
ArePlain = All (λ arg. is_plain arg ≡ true)

pub read_args-join_args :
    (args : List Text)
    → ArePlain args
    → read_args (join_args (map quote_systemd_arg args)) ≡ some args
unfolding read_args join_args
read_args-join_args [] h = refl
read_args-join_args (arg ∷ []) (p, h) =
    ap (read_from outside) (sym (append-nil (quote_systemd_arg arg)))
    ∙ read_from-quote_systemd_arg arg [] p
read_args-join_args (arg ∷ next ∷ args) (p, h) =
    read_from-quote_systemd_arg arg _ p ∙ ap (put arg) (read_args-join_args (next ∷ args) h)
