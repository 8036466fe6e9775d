-- ===== src/Behavior/Grants.antt =====
-- Which actions of behavior.rs may be used, and what an action may change.
use exokephalos.Prelude.{
  ◌≡◌, ◌≢◌, refl, sym, ◌∙◌, ◌↔◌, inl, inr, Bool, true, false, Option, some, List, [], ◌∷◌, arith,
  In, all, all-In, find, is_empty, Bool-cases, Option-cases,
}
use exokephalos.Prelude.Map.{get}
use exokephalos.Prelude.Order.{same}
use exokephalos.Prelude.Result.{ok, ensure, try_for_each, Result-cases}
use exokephalos.Prelude.Set.{In-insert}
use exokephalos.Prelude.Text.{Text, text_ord}
use exokephalos.Behavior.Types.{
  Capability, mutate_note, capability_ord, BehaviorError, capability_denied, ActionDescriptor,
  ActionEffect, WorkspaceBehavior,
}
use exokephalos.Behavior.{
  Rendering, action, apply_action, apply_all, is_available, is_granted, required,
  plugin_capabilities,
}
use exokephalos.Domain.{Note}

try_for_each_iff :
    (p : Capability → Bool) (e : Capability → BehaviorError) (cs : List Capability)
    → (try_for_each (λ c. ensure (p c) (e c)) cs ≡ ok tt) ↔ (all p cs ≡ true)
try_for_each_iff p e [] = ground arith
try_for_each_iff p e (c ∷ cs) = ground (arith, try_for_each_iff p e cs)

module _ (r : Rendering) where
  -- An action is given out exactly if it is the first with this identifier, its predicate holds of
  -- the note, or it is a plugin for no note in particular, and every capability that it requires is
  -- granted to this identifier.
  pub action_iff :
      (b : WorkspaceBehavior) (note : Option Note) (id : Text) (a : ActionDescriptor)
      → (action r b note id ≡ ok a) ↔ (
          (find (λ x. same x.id id) b.actions ≡ some a)
          × (is_available r a.plugin a.predicate note ≡ true)
          × (all (is_granted r (get id b.capability_grants)) (required r a) ≡ true))
  unfolding action
  action_iff b subject id a = elim (Option-cases (find (λ x. same x.id id) b.actions)) [
    | inl e ↦ ground (arith, e)
    | inr (x, e) ↦
        let granted = is_granted r (get id b.capability_grants) in
        ground (arith, e, try_for_each_iff granted (capability_denied id) (required r x))
  ]

  apply_all_empty :
      (effects : List ActionEffect) (now : Text) (note : Note)
      → is_empty effects ≡ true
      → apply_all r effects now note ≡ note
  unfolding apply_all
  apply_all_empty [] now note e = refl
  apply_all_empty (x ∷ effects) now note e = ground (arith, e)

  effects_mutate :
      (a : ActionDescriptor) → is_empty a.effects ≡ false → In mutate_note (required r a)
  effects_mutate a e =
      rw e ((In-insert mutate_note mutate_note (plugin_capabilities r a.plugin)).1 (inl refl))

  -- An action that changes a note in any way has been granted the capability to mutate notes.
  pub apply_action-is_granted :
      (b : WorkspaceBehavior) (note changed : Note) (id now : Text)
      → apply_action r b note id now ≡ ok changed
      → changed ≢ note
      → is_granted r (get id b.capability_grants) mutate_note ≡ true
  unfolding apply_action
  apply_action-is_granted b note changed id now done differs =
      elim (Result-cases (action r b (some note) id)) [
        | inr (e, failed) ↦ ground (arith, failed)
        | inl (a, given) ↦
            let applied : apply_all r a.effects now note ≡ changed = ground (arith, given) in
            let granted = ((action_iff b (some note) id a).0 given).2 in
            elim (Bool-cases (is_empty a.effects)) [
              | inl e ↦ absurd (differs (sym applied ∙ apply_all_empty a.effects now note e))
              | inr e ↦
                  all-In (is_granted r (get id b.capability_grants)) mutate_note (required r a)
                    granted (effects_mutate a e)
            ]
      ]
