-- ===== src/Schema/Value.antt =====
-- schema/value.go and schema/predicate.go: values and predicates. A Go struct of optional variants
-- is a data type here: the codecs set exactly one variant, and `unset` is a struct with none. Lists,
-- optional values and maps of values are types of their own, since a type may not hold a list of
-- itself.
use skopos.Base.{String, Bool, Option, ℤ}
use skopos.Schema.Path.{RefPath}

mutual
  pub data Value : Type 0 where
    unset : Value
    zero : Value
    literal_string : String → Value
    literal_int : ℤ → Value
    literal_bool : Bool → Value
    ref : RefPath → OptionalValue → Value
    now : Value
    concat : Values → Value
    select : Branches → Value → Value
    format : String → Value → Value
    base64 : Value → Value
    list : Values → Value
    object : Fields → Value
    add : Values → Value
    subtract : Values → Value
    max : Value → Value
    min : Value → Value
    first : Value → Value
    last : Value → Value
    count : Value → Value
    slice : Value → Option ℤ → Option ℤ → Value
    regex : String → Value → ℤ → OptionalValue → Value

  -- *Value
  pub data OptionalValue : Type 0 where
    absent : OptionalValue
    given : Value → OptionalValue

  -- []Value
  pub data Values : Type 0 where
    end : Values
    cons : Value → Values → Values

  -- map[string]Value
  pub data Fields : Type 0 where
    done : Fields
    field : String → Value → Fields → Fields

  -- []SelectBranch
  pub data Branches : Type 0 where
    exhausted : Branches
    branch : Predicate → Value → Branches → Branches

  pub data Predicate : Type 0 where
    no_variant : Predicate
    constant : Bool → Predicate
    present : RefPath → Predicate
    eq : RefPath → Value → Predicate
    gt : RefPath → Value → Predicate
    lt : RefPath → Value → Predicate
    gte : RefPath → Value → Predicate
    lte : RefPath → Value → Predicate
    and : Predicates → Predicate
    or : Predicates → Predicate
    not : Predicate → Predicate

  -- []Predicate
  pub data Predicates : Type 0 where
    finished : Predicates
    operand : Predicate → Predicates → Predicates
