-- ===== src/Domain/Relative.antt =====
-- The relative paths of domain.rs and where they lead.
use exokephalos.Prelude.{
  ◌≡◌, ◌≢◌, refl, ◌↔◌, ◌⊎◌, inl, inr, Bool, true, false, ◌++◌, List, [], ◌∷◌, arith, any, not,
}
use exokephalos.Prelude.Order.{same_iff}
use exokephalos.Prelude.Paths.{
  components, split_at, inner_components, first_is, is_absolute, leaves_tree, follow, names_onto,
  follow-names_onto,
}
use exokephalos.Prelude.Result.{ok, err}
use exokephalos.Prelude.Text.{Text, text, text_ord}
use exokephalos.Domain.{invalid_path, is_invalid_path, validate_relative_path}

-- A path is accepted exactly if it is not empty, is relative, has no `..` and does not begin with
-- the component `.xo`; a refused path is reported as it was written.
pub validate_relative_path_iff :
    (path : Text)
    → ((validate_relative_path path ≡ ok tt) ↔ (
        (path ≢ [])
        × (is_absolute path ≡ false)
        × (any leaves_tree (components path) ≡ false)
        × (first_is (text ".xo") (components path) ≡ false)))
      × ((validate_relative_path path ≢ ok tt)
          ↔ (validate_relative_path path ≡ err (invalid_path path)))
unfolding validate_relative_path is_invalid_path
validate_relative_path_iff [] = ((λ h. cc, λ h. absurd (h.0 refl)), ground arith)
validate_relative_path_iff (c ∷ path) = (ground arith, ground arith)

-- Below any directory, an accepted path leads to the names that it spells and to nowhere else: it
-- cannot leave that directory.
pub accepted_path_stays_below :
    (dir : List Text) (path : Text)
    → validate_relative_path path ≡ ok tt
    → follow dir (components path) ≡ names_onto dir (components path)
accepted_path_stays_below dir path h =
    follow-names_onto dir (components path) ((validate_relative_path_iff path).0.0 h).2

-- A leading `./` hides the reserved directory from the test: whatever path below `.xo` it is put in
-- front of is accepted, and leads into `.xo`.
pub dotted_path_reaches_state :
    (dir : List Text) (rest : Text)
    → any leaves_tree (inner_components (split_at b'/' rest)) ≡ false
    → (validate_relative_path (text "./.xo/" ++ rest) ≡ ok tt)
      × (follow dir (components (text "./.xo/" ++ rest))
          ≡ follow (text ".xo" ∷ dir) (inner_components (split_at b'/' rest)))
unfolding validate_relative_path is_invalid_path components exokephalos.Prelude.Order.compare_lists
dotted_path_reaches_state dir rest h = (ground arith, refl)
