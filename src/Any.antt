-- ===== src/Any.antt =====
-- Go's `any` as the client and the codecs use it: what encoding/json decodes to, and the runtime
-- values of client/value.go. Go's `int` and `int64` are one constructor, a float64 is its bit
-- pattern, a time.Time is its instant in nanoseconds since the Unix epoch.
pub mod Laws
use skopos.Base.{ℕ, String, Bool, List, [], ◌∷◌, Option, none, some, ℤ, Dict}

mutual
  pub data Any : Type 0 where
    nil : Any
    str : String → Any
    int : ℤ → Any
    bool : Bool → Any
    float : ℕ → Any
    time : ℤ → Any
    duration : ℤ → Any
    list : Elems → Any
    object : Entries → Any

  pub data Elems : Type 0 where
    end : Elems
    cons : Any → Elems → Elems

  pub data Entries : Type 0 where
    done : Entries
    entry : String → Any → Entries → Entries

abbrev pub elems : Elems → List Any
elems end = []
elems (cons v vs) = v ∷ elems vs

abbrev pub of_list : List Any → Elems
of_list [] = end
of_list (v ∷ vs) = cons v (of_list vs)

abbrev pub entries : Entries → Dict Any
entries done = []
entries (entry k v m) = (k, v) ∷ entries m

abbrev pub of_dict : Dict Any → Entries
of_dict [] = done
of_dict ((k, v) ∷ m) = entry k v (of_dict m)

-- x, ok := v.([]any)
abbrev pub as_list : Any → Option (List Any)
as_list (list vs) = some (elems vs)
as_list v = none

-- x, ok := v.(map[string]any)
abbrev pub as_object : Any → Option (Dict Any)
as_object (object m) = some (entries m)
as_object v = none

-- x, ok := v.(string)
abbrev pub as_str : Any → Option String
as_str (str s) = some s
as_str v = none

-- v == nil
abbrev pub is_nil : Any → Bool
is_nil nil = Bool.true
is_nil v = Bool.false
