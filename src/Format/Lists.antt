-- ===== src/Format/Lists.antt =====
-- common/log_format/log_format.h: the text of a list.
use Prim.Native.String.{◌++◌}
use text.Mathlib.TextLemmas.{append-nil}
use distributed_task_dispatc.Prelude.{◌≡◌, refl, List, [], ◌∷◌, String}
use distributed_task_dispatc.Prelude.Int.{ℤ}
use distributed_task_dispatc.Domain.{Vector}
use distributed_task_dispatc.Format.{format_elements, format_list}

-- The texts of the elements with ", " between them.
abbrev pub join {ℓ} : {A : Type ℓ} → (A → String) → List A → String
join format [] = ""
join format (x ∷ []) = format x
join format (x ∷ y ∷ ys) = format x ++ (", " ++ join format (y ∷ ys))

pub format_elements-join {ℓ} :
    {A : Type ℓ} (format : A → String) (before : String) (x : A) (xs : List A)
    → format_elements format before (x ∷ xs) ≡ before ++ join format (x ∷ xs)
unfolding format_elements
format_elements-join format before x [] = rw (append-nil (format x)) refl
format_elements-join format before x (y ∷ ys) = rw (format_elements-join format ", " y ys) refl

abbrev pub list_text : (ℤ → String) → Vector → String
list_text decimal [] = "[List] list: )"
list_text decimal (x ∷ xs) = "[List] list: " ++ (("(" ++ join decimal (x ∷ xs)) ++ ")")

-- The text of a list has the elements in order between parentheses, with ", " between two of them;
-- the text of the empty list has a closing parenthesis and no opening one.
pub format_list_lem :
    (decimal : ℤ → String) (l : Vector) → format_list decimal l ≡ list_text decimal l
unfolding format_list format_elements
format_list_lem decimal [] = refl
format_list_lem decimal (x ∷ xs) = rw (format_elements-join decimal "(" x xs) refl
