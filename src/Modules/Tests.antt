-- ===== src/Modules/Tests.antt =====
-- A run of the lists of modules, and their theorem at a concrete input.
use xynet.Prelude.{◌≡◌, refl, [], ◌∷◌, some, none, ◌==◌, not, if◌then◌else◌, count}
use xynet.Modules.{
  Module, map_modules, map_front, typelist_find, file_descriptor_has_module,
  policy_from_file_descriptor, policy,
}
use xynet.Modules.Find.{templates, file_descriptor_has_module-map_modules}

abbrev statx : Module
statx = record { template_of = 3; bound = [] }

abbrev openat : Module
openat = record { template_of = 5; bound = [] }

find_second : typelist_find (4 ∷ 7 ∷ []) 7 ≡ some 7
unfolding typelist_find
find_second = refl

file_descriptor_has_module-map_modules_example :
    let mapped = map_modules (statx ∷ openat ∷ []) (map_front (some 9)) in
    let listed = not (count 5 (templates (statx ∷ openat ∷ [])) == 0) in
    (file_descriptor_has_module mapped 5 ≡ listed)
    × (policy_from_file_descriptor mapped 5 ≡ (if listed then policy (some 9) else policy none))
file_descriptor_has_module-map_modules_example =
    file_descriptor_has_module-map_modules (some 9) (statx ∷ openat ∷ []) 5 (refl, (refl, tt))
