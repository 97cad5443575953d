-- ===== src/Modules/Find.antt =====
-- What is found in a list of modules of include/xynet/file_descriptor.h.
use xynet.Prelude.{
  ℕ, ◌≡◌, refl, arith, ◌∙◌, ap, ◌==◌, if◌then◌else◌, Bool, not, true, false, count, All,
}
use xynet.Prelude.{List, [], ◌∷◌, Option, none, some}
use xynet.Modules.{
  Module, InstModule, map_modules, map_front, instantiate, file_descriptor_inst_module_list,
  inst_module_list_match, policy, get_policy_from_module, file_descriptor_has_module,
  policy_from_file_descriptor,
}

-- The templates of the modules, in order.
abbrev pub templates : List Module → List ℕ
templates [] = []
templates (m ∷ ms) = m.template_of ∷ templates ms

abbrev pub IsUnbound : Module → Type 0
IsUnbound m = m.bound ≡ []

has_module-head :
    (m : Module) (ms : List Module) (target : ℕ)
    → file_descriptor_has_module (m ∷ ms) target
      ≡ (if m.template_of == target then true else file_descriptor_has_module ms target)
unfolding file_descriptor_has_module inst_module_list_match file_descriptor_inst_module_list
has_module-head m ms target = ground arith

has_module-count :
    (ms : List Module) (target : ℕ)
    → file_descriptor_has_module ms target
      ≡ (if count target (templates ms) == 0 then false else true)
unfolding file_descriptor_has_module inst_module_list_match file_descriptor_inst_module_list
has_module-count [] target = ground arith
has_module-count (m ∷ ms) target =
    has_module-head m ms target ∙ ground (arith, has_module-count ms target)

policy_of_choice :
    (b : Bool) (head : InstModule) (rest : Option InstModule)
    → get_policy_from_module (if b then some head else rest)
      ≡ (if b then get_policy_from_module (some head) else get_policy_from_module rest)
policy_of_choice true head rest = refl
policy_of_choice false head rest = refl

bound_policy :
    (t : Option ℕ) (m : Module)
    → IsUnbound m
    → get_policy_from_module (some (instantiate (map_front t m))) ≡ policy t
bound_policy t m h =
    ap
      (λ bound.
        get_policy_from_module (some (instantiate (map_front t (record m { bound = bound })))))
      h

policy_from-head :
    (t : Option ℕ) (m : Module) (ms : List Module) (target : ℕ)
    → IsUnbound m
    → policy_from_file_descriptor (map_modules (m ∷ ms) (map_front t)) target ≡ (
        if m.template_of == target
        then policy t
        else policy_from_file_descriptor (map_modules ms (map_front t)) target)
unfolding policy_from_file_descriptor inst_module_list_match file_descriptor_inst_module_list
    map_modules
policy_from-head t m ms target h =
    policy_of_choice (m.template_of == target) (instantiate (map_front t m)) (
      inst_module_list_match (file_descriptor_inst_module_list (map_modules ms (map_front t)))
        target)
    ∙ ap
        (λ p.
          if m.template_of == target
          then p
          else policy_from_file_descriptor (map_modules ms (map_front t)) target)
        (bound_policy t m h)

policy_from_mapped :
    (t : Option ℕ) (ms : List Module) (target : ℕ)
    → All IsUnbound ms
    → policy_from_file_descriptor (map_modules ms (map_front t)) target
      ≡ (if count target (templates ms) == 0 then policy none else policy t)
unfolding policy_from_file_descriptor inst_module_list_match file_descriptor_inst_module_list
    map_modules
policy_from_mapped t [] target h = ground arith
policy_from_mapped t (m ∷ ms) target (first, rest) =
    policy_from-head t m ms target first ∙ ground (arith, policy_from_mapped t ms target rest)

has_module_mapped :
    (t : Option ℕ) (ms : List Module) → templates (map_modules ms (map_front t)) ≡ templates ms
unfolding map_modules
has_module_mapped t [] = refl
has_module_mapped t (m ∷ ms) = ap (λ l. m.template_of ∷ l) (has_module_mapped t ms)

-- A file descriptor over modules without bound arguments that are mapped with a policy has exactly
-- the modules of the list, wherever they stand and however often, and the policy that is found for
-- a template is the one mapped if the list has the template, and else `void`.
pub file_descriptor_has_module-map_modules :
    (t : Option ℕ) (ms : List Module) (target : ℕ)
    → All IsUnbound ms
    → let mapped = map_modules ms (map_front t) in
      let listed = not (count target (templates ms) == 0) in
      (file_descriptor_has_module mapped target ≡ listed)
      × (policy_from_file_descriptor mapped target ≡ (if listed then policy t else policy none))
file_descriptor_has_module-map_modules t ms target h = (
  has_module-count (map_modules ms (map_front t)) target
      ∙ ap (λ l. if count target l == 0 then false else true) (has_module_mapped t ms)
      ∙ ground arith,
  policy_from_mapped t ms target h ∙ ground arith,
)
