-- ===== src/Cqrs/Types.antt =====
-- What the buses know of Python's types and functions, and
-- packages/natricine/src/natricine/cqrs/marshaler.py.
use natricine.Prelude.{
  ℕ, String, ◌≡◌, ◌↔◌, Bool, true, ◌&&◌, Option, none, some, List, [], ◌∷◌, arith, ◌==◌, Eq, nat_eq,
  string_eq, eq_iff, if◌then◌else◌,
}
use Prim.Native.String.{◌++◌}
use natricine.Prelude.Dict.{Dict, get}
use natricine.Runtime.{Exn, error, Result, ok, err, cancelled, Exec}

-- A class: the identity of its object, and its `__name__`.
pub record PyType : Type 0 where
  pub id : ℕ
  pub name : String

abbrev pub same_type : PyType → PyType → Bool
same_type a b = a.id == b.id && a.name == b.name

pub same_type_iff : (a b : PyType) → (same_type a b ≡ true) ↔ (a ≡ b)
same_type_iff a b = ground (arith, eq_iff a.id b.id, eq_iff a.name b.name)

instance abbrev pub type_eq : Eq PyType
type_eq = record { same = same_type; same_iff = same_type_iff }

-- Functions as `inspect` and `get_type_hints` show them. A parameter has a name, the `Depends` of its
-- annotation and that of its default, where there are such. The body takes keyword arguments.
mutual
  pub data Func (V S : Type 0) : Type 0 where
    func :
        String
        → Bool
        → Result (Dict String PyType)
        → Params V S
        → (Dict String V → Exec S V)
        → Func V S

  pub data Params (V S : Type 0) : Type 0 where
    nil : Params V S
    param : String → Depends V S → Depends V S → Params V S → Params V S

  -- depends.py: `Depends(dependency)`, or none
  pub data Depends (V S : Type 0) : Type 0 where
    absent : Depends V S
    depends : Func V S → Depends V S

module _ {V S : Type 0} where
  abbrev pub name_of : Func V S → String
  name_of (func name coroutine hints params body) = name

  abbrev pub hints_of : Func V S → Result (Dict String PyType)
  hints_of (func name coroutine hints params body) = hints

  abbrev pub param_names : Params V S → List String
  param_names nil = []
  param_names (param p annotated default rest) = p ∷ param_names rest

  abbrev pub params_of : Func V S → List String
  params_of (func name coroutine hints params body) = param_names params

abbrev pub no_parameter : String → Exn
no_parameter f = error "TypeError" ("Handler " ++ f ++ " must have at least one parameter")

abbrev pub not_typed : String → String → Exn
not_typed p f = error "TypeError" ("First parameter '" ++ p ++ "' of " ++ f ++ " must be typed")

typed : String → String → Option PyType → Result PyType
typed p f none = err (not_typed p f)
typed p f (some t) = ok t

check_first : String → List String → Dict String PyType → Result PyType
check_first f [] hints = err (no_parameter f)
check_first f (p ∷ ps) hints = typed p f (get p hints)

hinted : String → List String → Result (Dict String PyType) → Result PyType
hinted f ps (ok hints) = check_first f ps hints
hinted f ps (err e) = err e
hinted f ps cancelled = cancelled

-- The checks that every `handler` decorator makes: the type of the first parameter.
unfoldable pub handled_type : {V S : Type 0} → Func V S → Result PyType
unfolding hinted check_first typed
handled_type f = hinted (name_of f) (params_of f) (hints_of f)

abbrev pub stop_iteration : Exn
stop_iteration = error "StopIteration" ""

abbrev first : List String → Result String
first [] = err stop_iteration
first (p ∷ ps) = ok p

unfoldable pub first_param_name : {V S : Type 0} → Func V S → Result String
first_param_name f = first (params_of f)

-- marshaler.py: the protocol
pub record Marshaler (V : Type 0) : Type 0 where
  pub marshal : V → Result (List ℕ)
  pub unmarshal : List ℕ → PyType → Result V
  pub name : PyType → String

-- What `PydanticMarshaler` takes from Pydantic and from Python.
pub record Pydantic (V : Type 0) : Type 0 where
  pub type_of : V → PyType
  pub is_model : PyType → Bool
  -- obj.model_dump_json().encode()
  pub dump : V → Result (List ℕ)
  -- target_type.model_validate_json(data)
  pub validate : PyType → List ℕ → Result V

module _ {V : Type 0} (py : Pydantic V) where
  unfoldable pub pydantic_marshal : V → Result (List ℕ)
  pydantic_marshal obj =
      if py.is_model (py.type_of obj)
      then py.dump obj
      else err (error "TypeError" ("Expected BaseModel instance, got " ++ (py.type_of obj).name))

  unfoldable pub pydantic_unmarshal : List ℕ → PyType → Result V
  pydantic_unmarshal payload target =
      if py.is_model target
      then py.validate target payload
      else err (error "TypeError" ("Expected BaseModel subclass, got " ++ target.name))

  abbrev pub pydantic_marshaler : Marshaler V
  pydantic_marshaler = record {
    marshal = pydantic_marshal;
    unmarshal = pydantic_unmarshal;
    name = λ t. t.name;
  }
