-- ===== src/Tests/ObjectRuns.antt =====
-- Copying objects (web/assets/js/util/index.js).
use ax_ui.Common.{◌≡◌, refl, false, [], ◌∷◌}
use ax_ui.Js.{
  undefined, nat, str, arr, obj, nil, cons, Props, property, has_property, entries, keys,
}
use ax_ui.ObjectUtil.{clone_props, del_props, deep_clone}
use ax_ui.ObjectUtil.Copy.{copied, property-clone_props, keys-clone_props, property-del_props}
use ax_ui.ObjectUtil.DeepClone.{well_formed, deep_clone_lem}

abbrev dest : Props
dest = entries (("id", nat 0) ∷ ("remark", str "") ∷ [])

abbrev src : Props
src = entries (("remark", str "home") ∷ ("extra", nat 7) ∷ ("id", undefined) ∷ [])

clone_props_run :
    clone_props dest (obj src) [] ≡ entries (("id", nat 0) ∷ ("remark", str "home") ∷ [])
unfolding clone_props
clone_props_run = refl

property-clone_props_example :
    property "remark" (clone_props dest (obj src) []) ≡ copied [] dest src "remark"
property-clone_props_example = property-clone_props dest src [] "remark" refl

keys-clone_props_example : keys (clone_props dest (obj src) []) ≡ keys dest
keys-clone_props_example = keys-clone_props dest (obj src) []

property-del_props_example :
    (has_property "id" (del_props dest ("id" ∷ [])) ≡ false)
    × (property "id" (del_props dest ("id" ∷ [])) ≡ undefined)
property-del_props_example = property-del_props dest ("id" ∷ []) "id" refl

-- Cloning gives a value with the same contents.
deep_clone_run : deep_clone (arr (cons (obj src) nil)) ≡ arr (cons (obj src) nil)
unfolding well_formed
deep_clone_run = deep_clone_lem (arr (cons (obj src) nil)) refl
