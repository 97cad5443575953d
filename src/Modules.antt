-- ===== src/Modules.antt =====
-- The lists of modules of detail/module_list.h, and how file_descriptor.h finds a module in one. A
-- template and a type are numbers; `none` is the type `void`.
pub mod Find
mod Tests
use xynet.Prelude.{
  ℕ, ◌==◌, if◌then◌else◌, Bool, true, false, List, [], ◌∷◌, ◌++◌, Option, none, some,
}

-- A module template, with the arguments that `with` has bound.
pub record Module : Type 0 where
  pub template_of : ℕ
  pub bound : List (Option ℕ)

-- An instance of a template.
pub record InstModule : Type 0 where
  pub template_of : ℕ
  pub arguments : List (Option ℕ)

-- `module_list<head, tail...>`
abbrev pub push_front : List Module → Module → List Module
push_front elements new_element = new_element ∷ elements

-- `map`, which pushes the image of the front before the image of the rest.
unfoldable pub map_modules : List Module → (Module → Module) → List Module
map_modules [] meta_func = []
map_modules (head ∷ tail) meta_func = push_front (map_modules tail meta_func) (meta_func head)

-- `with<T>::map_front`
abbrev pub map_front : Option ℕ → Module → Module
map_front t m = record m { bound = m.bound ++ (t ∷ []) }

-- `typelist_find`
unfoldable pub typelist_find : List ℕ → ℕ → Option ℕ
typelist_find [] target = none
typelist_find (head ∷ tails) target =
    let rest = typelist_find tails target in if target == head then some head else rest

-- `Modules<void>...`
abbrev pub instantiate : Module → InstModule
instantiate m = record { template_of = m.template_of; arguments = m.bound ++ (none ∷ []) }

unfoldable pub file_descriptor_inst_module_list : List Module → List InstModule
file_descriptor_inst_module_list [] = []
file_descriptor_inst_module_list (m ∷ ms) = instantiate m ∷ file_descriptor_inst_module_list ms

abbrev pub module_match : InstModule → ℕ → Bool
module_match inst target = inst.template_of == target

-- The first instance of the template; `none` is `void`.
unfoldable pub inst_module_list_match : List InstModule → ℕ → Option InstModule
inst_module_list_match [] target = none
inst_module_list_match (head ∷ tails) target =
    let rest = inst_module_list_match tails target in
    if module_match head target then some head else rest

-- `get_policy_from_module`, which has specialisations for `Module<T, void>` and `void`.
pub data PolicyType : Type 0 where
  policy : Option ℕ → PolicyType
  no_specialisation : PolicyType

abbrev pub policy_of_arguments : List (Option ℕ) → PolicyType
policy_of_arguments (t ∷ none ∷ []) = policy t
policy_of_arguments _ = no_specialisation

abbrev pub get_policy_from_module : Option InstModule → PolicyType
get_policy_from_module none = policy none
get_policy_from_module (some inst) = policy_of_arguments inst.arguments

abbrev pub is_void : Option InstModule → Bool
is_void none = true
is_void (some inst) = false

unfoldable pub file_descriptor_has_module : List Module → ℕ → Bool
file_descriptor_has_module modules target =
    if is_void (inst_module_list_match (file_descriptor_inst_module_list modules) target)
    then false
    else true

unfoldable pub policy_from_file_descriptor : List Module → ℕ → PolicyType
policy_from_file_descriptor modules target =
    get_policy_from_module
      (inst_module_list_match (file_descriptor_inst_module_list modules) target)
