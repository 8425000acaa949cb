-- ===== src/ObjectUtil.antt =====
-- `ObjectUtil` (web/assets/js/util/index.js).
pub mod Copy
pub mod DeepClone
use ax_ui.Common.{
  Bool, true, false, not, ◌&&◌, ◌||◌, String, List, [], ◌∷◌, ◌==◌, if◌then◌else◌, zero, ℕ, suc,
}
use ax_ui.Common.Int.{pos}
use ax_ui.Js.{
  Value, undefined, null, bool, num, str, arr, obj, Values, nil, cons, Props, end, prop, is_nullish,
  is_undefined, property, has_property, put, show_ℕ,
}
use Prim.Native.String

-- `isEmpty`
abbrev pub is_empty : Value → Bool
is_empty undefined = true
is_empty null = true
is_empty (str s) = s == ""
is_empty _ = false

abbrev is_zero : Value → Bool
is_zero (num (pos zero)) = true
is_zero _ = false

-- `arr.length === 0`, where the value has been found not to be empty.
abbrev pub has_length_zero : Value → Bool
has_length_zero (arr nil) = true
has_length_zero (str s) = s == ""
has_length_zero (obj ps) = is_zero (property "length" ps)
has_length_zero _ = false

-- `isArrEmpty`
abbrev pub is_arr_empty : Value → Bool
is_arr_empty v = not (is_empty v) && has_length_zero v

-- `orDefault`
abbrev pub or_default : Value → Value → Value
or_default v d = if is_nullish v then d else v

-- The own enumerable properties of a value, which `Object.keys` and `for in` list.
abbrev index_props : ℕ → Values → Props
index_props i nil = end
index_props i (cons v vs) = prop (show_ℕ i) v (index_props (suc i) vs)

abbrev pub char_values : String → Values
char_values String.[] = nil
char_values (String.◌∷◌ c s) = cons (str (String.◌∷◌ c "")) (char_values s)

abbrev pub own_props : Value → Props
own_props (obj ps) = ps
own_props (arr vs) = index_props 0 vs
own_props (str s) = index_props 0 (char_values s)
own_props _ = end

abbrev pub contains : List String → String → Bool
contains [] k = false
contains (j ∷ js) k = j == k || contains js k

-- `cloneProps`: one round of its loop, then the loop over the properties of `src`.
abbrev copy_prop : List String → String → Value → Props → Props
copy_prop ignore k v dest =
    if not (has_property k dest) || (is_undefined v || contains ignore k)
    then dest
    else put k v dest

pub copy_props : List String → Props → Props → Props
copy_props ignore end dest = dest
copy_props ignore (prop k v ps) dest = copy_props ignore ps (copy_prop ignore k v dest)

unfoldable pub clone_props : Props → Value → List String → Props
unfolding copy_props
clone_props dest src ignore =
    if is_nullish src then dest else copy_props ignore (own_props src) dest

-- `delProps`: `delete obj[prop]` for each name.
abbrev pub remove : String → Props → Props
remove k end = end
remove k (prop j v ps) = if j == k then remove k ps else prop j v (remove k ps)

unfoldable pub del_props : Props → List String → Props
del_props ps [] = ps
del_props ps (k ∷ ks) = del_props (remove k ps) ks

-- `deepClone`: an array is filled element by element, and an object key by key from `{}`. Values have no
-- identity here, so that the model does not tell a copy from a nested object that is shared.
unfoldable mutual
  pub deep_clone : Value → Value
  deep_clone (arr vs) = arr (deep_clone_values vs)
  deep_clone (obj ps) = obj (deep_clone_props ps end)
  deep_clone undefined = undefined
  deep_clone null = null
  deep_clone (bool b) = bool b
  deep_clone (num z) = num z
  deep_clone (str s) = str s

  pub deep_clone_values : Values → Values
  deep_clone_values nil = nil
  deep_clone_values (cons v vs) = cons (deep_clone v) (deep_clone_values vs)

  pub deep_clone_props : Props → Props → Props
  deep_clone_props end copy = copy
  deep_clone_props (prop k v ps) copy = deep_clone_props ps (put k (deep_clone v) copy)

-- `clone`: one level of the same.
abbrev clone_from : Props → Props → Props
clone_from end copy = copy
clone_from (prop k v ps) copy = clone_from ps (put k v copy)

unfoldable pub clone : Value → Value
clone (obj ps) = obj (clone_from ps end)
clone v = v

-- `arr && arr.length > 0`
abbrev is_positive : Value → Bool
is_positive (num (pos (suc n))) = true
is_positive _ = false

abbrev pub has_elements : Value → Bool
has_elements (arr (cons v vs)) = true
has_elements (str s) = not (s == "")
has_elements (obj ps) = is_positive (property "length" ps)
has_elements _ = false
