-- ===== src/StdText/Tests.antt =====
-- Tests of the path functions and of printing.
use rudr.Prelude.{◌≡◌, refl, none, some}
use rudr.StdText.{file_name, parent, show_nat}

parent_tests :
    (parent "/etc/access/x.txt" ≡ some "/etc/access")
    × (parent "/x" ≡ some "/")
    × (parent "x" ≡ some "")
    × (parent "/" ≡ none)
    × (parent "" ≡ none)
    × (parent "/etc//a/" ≡ some "/etc")
    × (parent "./a" ≡ some ".")
    × (parent "a//b/c" ≡ some "a//b")
unfolding parent
parent_tests = (refl, refl, refl, refl, refl, refl, refl, refl)

file_name_tests :
    (file_name "/etc/access/x.txt" ≡ some "x.txt")
    × (file_name "a/" ≡ some "a")
    × (file_name "a/.." ≡ none)
    × (file_name "/" ≡ none)
    × (file_name "a/." ≡ some "a")
    × (file_name "." ≡ none)
unfolding file_name
file_name_tests = (refl, refl, refl, refl, refl, refl)

show_nat_tests : (show_nat 0 ≡ "0") × (show_nat 10 ≡ "10") × (show_nat 907 ≡ "907")
unfolding show_nat
show_nat_tests = (refl, refl, refl)
