-- ===== src/Text/Booleans.antt =====
-- strconv.ParseBool.
use homebrain.Prelude.{Bool, true, false, ◌||◌, Option, none, some, List, [], ◌∷◌, if◌then◌else◌}
use homebrain.Text.{Text, codes, text_eq}

abbrev any_of : Text → List Text → Bool
any_of raw [] = false
any_of raw (t ∷ ts) = text_eq raw t || any_of raw ts

abbrev true_texts : List Text
true_texts = codes "1" ∷ codes "t" ∷ codes "T" ∷ codes "true" ∷ codes "TRUE" ∷ codes "True" ∷ []

abbrev false_texts : List Text
false_texts = codes "0" ∷ codes "f" ∷ codes "F" ∷ codes "false" ∷ codes "FALSE" ∷ codes "False" ∷ []

unfoldable pub parse_bool : Text → Option Bool
parse_bool raw =
    if any_of raw true_texts then some true else if any_of raw false_texts then some false else none
