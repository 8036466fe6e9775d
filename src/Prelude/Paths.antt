-- ===== src/Prelude/Paths.antt =====
-- `std::path` on Unix: the components of a path, and where following them leads.
use mathlib.Core.Path.{◌≡◌, refl}
use mathlib.Core.Bool.{Bool, true, false, ◌||◌}
use mathlib.Core.List.{List, [], ◌∷◌, ◌++◌}
use Prim.Native.Nat.{ℕ}
use exokephalos.Prelude.Lists.{any, is_empty}
use exokephalos.Prelude.Order.{Ord, same}
use exokephalos.Prelude.Text.{Text, text, text_ord, starts_with}
use exokephalos.Prelude.Tests.{◌==◌, if◌then◌else◌}

pub data Component : Type 0 where
  root_dir cur_dir parent_dir : Component
  normal : Text → Component

abbrev pub as_os_str : Component → Text
as_os_str root_dir = text "/"
as_os_str cur_dir = text "."
as_os_str parent_dir = text ".."
as_os_str (normal name) = name

abbrev pub push_first : ℕ → List Text → List Text
push_first c [] = (c ∷ []) ∷ []
push_first c (part ∷ parts) = (c ∷ part) ∷ parts

-- `str::split` at one byte: one part more than there are separators.
unfoldable pub split_at : ℕ → Text → List Text
split_at separator [] = [] ∷ []
split_at separator (c ∷ s) =
    let rest = split_at separator s in if c == separator then [] ∷ rest else push_first c rest

-- Empty parts and `.` inside a path are no components.
abbrev pub inner_components : List Text → List Component
inner_components [] = []
inner_components (part ∷ parts) =
    let rest = inner_components parts in
    if is_empty part || same part (text ".")
    then rest
    else if same part (text "..")
    then parent_dir ∷ rest
    else normal part ∷ rest

-- Only at the head is `.` a component of its own.
abbrev pub leading_component : List Text → List Component
leading_component [] = []
leading_component (part ∷ parts) = if same part (text ".") then cur_dir ∷ [] else []

abbrev pub is_absolute : Text → Bool
is_absolute path = starts_with (text "/") path

unfoldable pub components : Text → List Component
unfolding split_at
components path =
    let parts = split_at b'/' path in
    if is_absolute path
    then root_dir ∷ inner_components parts
    else leading_component parts ++ inner_components parts

-- `components().next().is_some_and(|component| component.as_os_str() == name)`
abbrev pub first_is : Text → List Component → Bool
first_is name [] = false
first_is name (c ∷ cs) = same (as_os_str c) name

-- `matches!(component, ParentDir | RootDir | Prefix(_))`; only Windows has prefixes.
abbrev pub leaves_tree : Component → Bool
leaves_tree root_dir = true
leaves_tree cur_dir = false
leaves_tree parent_dir = true
leaves_tree (normal name) = false

-- Where a walk along components leads from a directory, given as the names below the root,
-- innermost first.
abbrev pub follow : List Text → List Component → List Text
follow dir [] = dir
follow dir (root_dir ∷ cs) = follow [] cs
follow dir (cur_dir ∷ cs) = follow dir cs
follow [] (parent_dir ∷ cs) = follow [] cs
follow (name ∷ dir) (parent_dir ∷ cs) = follow dir cs
follow dir (normal name ∷ cs) = follow (name ∷ dir) cs

-- The names that components spell, innermost first, in front of `dir`.
abbrev pub names_onto : List Text → List Component → List Text
names_onto dir [] = dir
names_onto dir (normal name ∷ cs) = names_onto (name ∷ dir) cs
names_onto dir (root_dir ∷ cs) = names_onto dir cs
names_onto dir (cur_dir ∷ cs) = names_onto dir cs
names_onto dir (parent_dir ∷ cs) = names_onto dir cs

-- With no component that leaves the tree, a walk goes down only.
pub follow-names_onto :
    (dir : List Text) (cs : List Component)
    → any leaves_tree cs ≡ false
    → follow dir cs ≡ names_onto dir cs
follow-names_onto dir [] h = refl
follow-names_onto dir (root_dir ∷ cs) h = cc
follow-names_onto dir (cur_dir ∷ cs) h = follow-names_onto dir cs h
follow-names_onto dir (parent_dir ∷ cs) h = cc
follow-names_onto dir (normal name ∷ cs) h = follow-names_onto (name ∷ dir) cs h

components_test :
    components (text "./a//b/../.")
    ≡ cur_dir ∷ normal (text "a") ∷ normal (text "b") ∷ parent_dir ∷ []
unfolding components exokephalos.Prelude.Order.compare_lists
components_test = refl
