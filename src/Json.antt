-- ===== src/Json.antt =====
-- The values that `json.loads` yields. An object is the list of its pairs as they stand in the
-- text, which is what an `object_pairs_hook` is given; a float is opaque, by a number of its own.
use yantra_os.Prelude.{
  ℕ, String, Bool, true, false, ◌&&◌, ◌||◌, not, Option, none, some, List, [], ◌∷◌, str_eq,
  if◌then◌else◌,
}

mutual
  pub data Json : Type 0 where
    null : Json
    bool : Bool → Json
    int : ℕ → Json
    neg : ℕ → Json
    float : ℕ → Json
    str : String → Json
    arr : Items → Json
    obj : Fields → Json

  pub data Items : Type 0 where
    nil : Items
    cons : Json → Items → Items

  pub data Fields : Type 0 where
    end : Fields
    field : String → Json → Fields → Fields

-- `key in d`
unfoldable pub has_key : String → Fields → Bool
has_key k end = false
has_key k (field j v fs) = str_eq j k || has_key k fs

-- `d.get(key)`, `d[key]`
unfoldable pub get : String → Fields → Option Json
get k end = none
get k (field j v fs) = if str_eq j k then some v else get k fs

unfoldable pub keys : Fields → List String
keys end = []
keys (field k v fs) = k ∷ keys fs

unfoldable pub contains_text : String → List String → Bool
contains_text k [] = false
contains_text k (j ∷ js) = str_eq j k || contains_text k js

unfoldable pub subset_text : List String → List String → Bool
unfolding contains_text
subset_text [] ks = true
subset_text (j ∷ js) ks = contains_text j ks && subset_text js ks

-- `set(d) == {…}`
unfoldable pub keys_are : List String → Fields → Bool
unfolding keys subset_text
keys_are ks fs = subset_text (keys fs) ks && subset_text ks (keys fs)

-- The duplicate-key hook, applied to every object of a document: no key occurs twice in one object.
unfoldable mutual
  pub unique : Json → Bool
  unique (arr xs) = unique_items xs
  unique (obj fs) = unique_fields fs
  unique _ = true

  pub unique_items : Items → Bool
  unique_items nil = true
  unique_items (cons x xs) = unique x && unique_items xs

  pub unique_fields : Fields → Bool
  unique_fields end = true
  unique_fields (field k v fs) = not (has_key k fs) && unique v && unique_fields fs
