-- ===== src/Connector/Registrations.antt =====
-- What the registry answers after any sequence of registrations.
use nautikus.Prelude.{
  ◌<>◌, Bool, false, ◌≡◌, ◌≢◌, refl, sym, ◌∙◌, ap, ◌↔◌, String, string_eq, ◌==◌, if◌then◌else◌,
  true, Option, none, some, List, [], ◌∷◌, ◌++◌,
}
use mathlib.Core.Option.{some-ne-none}
use mathlib.Core.List.{Perm, Mem, Nodup, append_assoc, append-nil}
use mathlib.Core.List.Perm
use nautikus.Prelude.Dict
use nautikus.Prelude.Dict.{Dict}
use nautikus.Errors.{text, Result, ok, err}
use nautikus.Connector.Registry.{
  ExternalResourceConnector, CloudServiceConnector, Systems, ConnectorRegistry, is_present,
  get_external_from, get_cloud_from, append_types, new_registry, register_external, register_cloud,
  get_external, get_cloud, has_external, has_cloud, external_types, cloud_types,
}

-- The last item with the given type.
abbrev pub last_of : {C : Type 0} → (C → String) → String → List C → Option C
last_of type key [] = none
last_of type key (c ∷ cs) = if type c == key then some c else last_of type key cs

-- A call of `RegisterExternal` or of `RegisterCloud`.
pub data Registration (S : Systems) : Type 0 where
  external : ExternalResourceConnector S → Registration S
  cloud : CloudServiceConnector S → Registration S

-- The answers of `Get…` and `Has…` where the connector is `conn`, or where there is none.
abbrev pub Answers : {C : Type 0} → String → String → Option C → Result C → Bool → Type 0
Answers message t none got has = (got ≡ err (text (message <> t))) × (has ≡ false)
Answers message t (some conn) got has = (got ≡ ok conn) × (has ≡ true)

get_external_from-Answers :
    {C : Type 0} (t : String) (o : Option C)
    → Answers "no external connector registered for type: " t o
        (get_external_from t o)
        (is_present o)
get_external_from-Answers t none = (refl, refl)
get_external_from-Answers t (some conn) = (refl, refl)

get_cloud_from-Answers :
    {C : Type 0} (t : String) (o : Option C)
    → Answers "no cloud connector registered for type: " t o (get_cloud_from t o) (is_present o)
get_cloud_from-Answers t none = (refl, refl)
get_cloud_from-Answers t (some conn) = (refl, refl)

module _ {S : Systems} where
  abbrev apply : Registration S → ConnectorRegistry S → ConnectorRegistry S
  apply (external conn) r = register_external conn r
  apply (cloud conn) r = register_cloud conn r

  -- The registrations, the last one first.
  abbrev pub registered : List (Registration S) → ConnectorRegistry S
  registered [] = new_registry S
  registered (x ∷ earlier) = apply x (registered earlier)

  abbrev pub externals : List (Registration S) → List (ExternalResourceConnector S)
  externals [] = []
  externals (external conn ∷ xs) = conn ∷ externals xs
  externals (cloud conn ∷ xs) = externals xs

  abbrev pub clouds : List (Registration S) → List (CloudServiceConnector S)
  clouds [] = []
  clouds (external conn ∷ xs) = clouds xs
  clouds (cloud conn ∷ xs) = conn ∷ clouds xs

  lookup_external :
      (t : String) (xs : List (Registration S))
      → Dict.lookup t (registered xs).external_connectors ≡ last_of (λ c. c.type) t (externals xs)
  unfolding register_external register_cloud new_registry
  lookup_external t [] = Dict.lookup-nil t
  lookup_external t (external conn ∷ xs) =
      Dict.lookup-insert conn.type t conn (registered xs).external_connectors
      ∙ ap (λ o. if conn.type == t then some conn else o) (lookup_external t xs)
  lookup_external t (cloud conn ∷ xs) = lookup_external t xs

  lookup_cloud :
      (t : String) (xs : List (Registration S))
      → Dict.lookup t (registered xs).cloud_connectors ≡ last_of (λ c. c.type) t (clouds xs)
  unfolding register_external register_cloud new_registry
  lookup_cloud t [] = Dict.lookup-nil t
  lookup_cloud t (external conn ∷ xs) = lookup_cloud t xs
  lookup_cloud t (cloud conn ∷ xs) =
      Dict.lookup-insert conn.type t conn (registered xs).cloud_connectors
      ∙ ap (λ o. if conn.type == t then some conn else o) (lookup_cloud t xs)

  -- After any sequence of registrations in a new registry, `GetExternal` and `GetCloud` give the
  -- connector that was registered last among those of their kind with the given type, and an error
  -- that names the type where there is none; `HasExternal` and `HasCloud` say whether there is one.
  pub registered-eq-last_of :
      (t : String) (xs : List (Registration S))
      → let external = last_of (λ c. c.type) t (externals xs) in
        let cloud = last_of (λ c. c.type) t (clouds xs) in
        Answers "no external connector registered for type: " t external
          (get_external t (registered xs))
          (has_external t (registered xs))
        × Answers "no cloud connector registered for type: " t cloud
            (get_cloud t (registered xs))
            (has_cloud t (registered xs))
  unfolding get_external has_external get_cloud has_cloud
  registered-eq-last_of t xs = (
    rw (lookup_external t xs)
        (get_external_from-Answers t (last_of (λ c. c.type) t (externals xs))),
    rw (lookup_cloud t xs) (get_cloud_from-Answers t (last_of (λ c. c.type) t (clouds xs))),
  )

  NodupKeys-registered :
      (xs : List (Registration S))
      → Dict.NodupKeys (registered xs).external_connectors
        × Dict.NodupKeys (registered xs).cloud_connectors
  unfolding register_external register_cloud new_registry
  NodupKeys-registered [] = (tt, tt)
  NodupKeys-registered (external conn ∷ xs) =
      let (e, c) = NodupKeys-registered xs in
      (Dict.insert-NodupKeys conn.type conn (registered xs).external_connectors e, c)
  NodupKeys-registered (cloud conn ∷ xs) =
      let (e, c) = NodupKeys-registered xs in
      (e, Dict.insert-NodupKeys conn.type conn (registered xs).cloud_connectors c)

append_types-keys :
    {C : Type 0} (types : List String) (entries : List (String × C))
    → append_types types entries ≡ types ++ Dict.keys entries
unfolding append_types
append_types-keys types [] = sym (append-nil types)
append_types-keys types ((t, _) ∷ rest) =
    append_types-keys (types ++ t ∷ []) rest ∙ append_assoc types (t ∷ []) (Dict.keys rest)

is_present_iff : {C : Type 0} (o : Option C) → (is_present o ≡ true) ↔ (o ≢ none)
is_present_iff none = (λ h. cc, λ h. absurd (h refl))
is_present_iff (some a) = (λ h. some-ne-none a, λ h. refl)

-- The types of a map, in the order of `ranged`.
append_types_lem :
    {C : Type 0} (m : Dict String C) (ranged : List (String × C))
    → Perm ranged m
    → Dict.NodupKeys m
    → Nodup (append_types [] ranged)
      × ((t : String) → Mem t (append_types [] ranged) ↔ (is_present (Dict.lookup t m) ≡ true))
append_types_lem m ranged p u =
    let same = Perm.map (λ (t, _). t) p in
    rw append_types-keys (
      Perm.nodup (Perm.symm same) (Dict.keys-Nodup m u),
      λ t. (
        λ h. (is_present_iff _).1 ((Dict.mem-keys t m).0 (Perm.subset same t h)),
        λ h. Perm.subset (Perm.symm same) t ((Dict.mem-keys t m).1 ((is_present_iff _).0 h)),
      ),
    )

module _ {S : Systems} where
  -- Whatever the order in which Go ranges over a map, as long as it gives every entry once, after any
  -- sequence of registrations in a new registry `ExternalTypes` lists each type once, and just those
  -- for which `HasExternal` answers yes; and so do `CloudTypes` and `HasCloud`.
  pub external_types-has :
      (range : Dict String (ExternalResourceConnector S)
        → List (String × ExternalResourceConnector S))
      (range' : Dict String (CloudServiceConnector S) → List (String × CloudServiceConnector S))
      → ((m : Dict String (ExternalResourceConnector S)) → Perm (range m) m)
      → ((m : Dict String (CloudServiceConnector S)) → Perm (range' m) m)
      → (xs : List (Registration S))
      → Nodup (external_types range (registered xs))
        × ((t : String)
            → Mem t (external_types range (registered xs))
              ↔ (has_external t (registered xs) ≡ true))
        × Nodup (cloud_types range' (registered xs))
        × ((t : String)
            → Mem t (cloud_types range' (registered xs)) ↔ (has_cloud t (registered xs) ≡ true))
  unfolding external_types cloud_types has_external has_cloud
  external_types-has range range' p p' xs =
      let (u, v) = NodupKeys-registered xs in
      let (a, b) = append_types_lem _ _ (p (registered xs).external_connectors) u in
      let (c, d) = append_types_lem _ _ (p' (registered xs).cloud_connectors) v in (a, b, c, d)
