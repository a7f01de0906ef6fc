-- ===== src/Base/Paths.antt =====
-- `PurePosixPath`, as far as the program reads it: the components, the name and its suffixes. The
-- component of a leading slash is left out, since no name is compared with it.
use mathlib.Core.List.{List, [], ◌∷◌, map, reverse}
use mathlib.Core.Bool.{not, ◌&&◌, ◌||◌}
use dovi_ai_server.Base.Tests.{if◌then◌else◌, ◌==◌, nat_eq, list_eq}
use dovi_ai_server.Base.Lists.{keep, is_nil}
use dovi_ai_server.Base.Texts.{Text, codes, split_on}

-- `path.parts`.
unfoldable pub path_parts : Text → List Text
unfolding keep split_on
path_parts path = keep (λ p. not (is_nil p || p == codes ".")) (split_on b'/' path)

abbrev pub last_or_nil : List Text → Text
last_or_nil [] = []
last_or_nil (x ∷ []) = x
last_or_nil (x ∷ y ∷ ys) = last_or_nil (y ∷ ys)

-- `path.name`.
unfoldable pub path_name : Text → Text
unfolding path_parts
path_name path = last_or_nil (path_parts path)

-- The last part of a name behind a dot, given the parts of the name in reverse.
abbrev pub suffix_of_parts : List Text → Text
suffix_of_parts (last ∷ before ∷ rest) =
    if is_nil last || (is_nil before && is_nil rest) then [] else b'.' ∷ last
suffix_of_parts _ = []

-- `path.suffix`: neither a leading nor a final dot begins one.
unfoldable pub path_suffix : Text → Text
unfolding path_name
path_suffix path = suffix_of_parts (reverse (split_on b'.' (path_name path)))

unfoldable pub lstrip_dots : Text → Text
lstrip_dots [] = []
lstrip_dots (c ∷ t) = if c == b'.' then lstrip_dots t else c ∷ t

abbrev pub drop_first : List Text → List Text
drop_first [] = []
drop_first (x ∷ xs) = xs

-- `path.suffixes`.
unfoldable pub path_suffixes : Text → List Text
unfolding path_name lstrip_dots
path_suffixes path =
    let name = path_name path in
    if is_nil (last_or_nil (split_on b'.' name))
    then []
    else map (λ s. b'.' ∷ s) (drop_first (split_on b'.' (lstrip_dots name)))
