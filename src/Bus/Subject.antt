-- ===== src/Bus/Subject.antt =====
-- Subjects and patterns of the bus, matchSubject in internal/bus/channel.go.
pub mod Matching
use Prim.Native.Char.{Char, code}
use tentacle_next.Prelude.{
  String, Bool, true, false, not, List, [], ◌∷◌, ◌&&◌, ◌||◌, ◌==◌, str_eq, if◌then◌else◌,
}

push : Char → List String → List String
push c [] = (String.◌∷◌ c String.[]) ∷ []
push c (part ∷ parts) = (String.◌∷◌ c part) ∷ parts

-- strings.Split(s, ".")
unfoldable pub split : String → List String
unfolding push
split String.[] = String.[] ∷ []
split (String.◌∷◌ c s) =
    let parts = split s in if code c == b'.' then String.[] ∷ parts else push c parts

abbrev has_parts : List String → Bool
has_parts [] = false
has_parts (part ∷ parts) = true

-- The loop over the pattern's parts, with the subject's parts that its index has not passed.
unfoldable pub match_parts : List String → List String → Bool
match_parts [] [] = true
match_parts [] (part ∷ parts) = false
match_parts (pp ∷ pps) [] = false
match_parts (pp ∷ pps) (part ∷ parts) =
    let others = match_parts pps parts in
    if str_eq pp ">"
    then true
    else if not (str_eq pp "*") && not (str_eq pp part)
    then false
    else others

unfoldable pub match_subject : String → String → Bool
match_subject pattern subject = match_parts (split pattern) (split subject)
