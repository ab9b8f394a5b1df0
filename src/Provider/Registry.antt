-- ===== src/Provider/Registry.antt =====
-- internal/provider/registry.go: the configured endpoints and the factories of their kinds.
use kode_stream.Prelude.{
  ◌≡◌, ◌≢◌, refl, sym, false, ◌||◌, List, [], ◌∷◌, Option, none, some, of_some, String, Map,
  empty_map, put, ◌==◌, string_eq, eq_iff, Result, ok, err, ok-injective, err-ne-ok, Result-cases,
  ◌>>◌, arith, if◌then◌else◌, Bool-cases, Option-cases, inl, inr,
}

pub record Instance : Type 0 where
  pub id : String
  pub name : String
  pub kind : String
  pub base_url : String

pub data RegistryError : Type 0 where
  fields_required : RegistryError
  unsupported_kind : String → RegistryError
  instance_not_found : String → RegistryError
  connection_required : RegistryError

-- An integration is an HTTP client, the parameter `Client`; a factory makes one for an endpoint.
pub record Factory (Client : Type 0) : Type 0 where
  pub kind : String
  pub new_client : Instance → String → Client

pub record Registry (Client : Type 0) : Type 0 where
  pub instances : Map String Instance
  pub factories : Map String (Factory Client)

-- What a call gives; `panicked` is a call through a nil factory.
pub data Integration (Client : Type 0) : Type 0 where
  client : Client → Integration Client
  failed : RegistryError → Integration Client
  panicked : Integration Client

unfoldable pub validate_instance : Instance → Result RegistryError (Unit {0})
validate_instance i =
    if i.id == "" || i.name == "" || i.kind == "" || i.base_url == ""
    then err fields_required
    else ok tt

module _ {Client : Type 0} where
  register : List (Factory Client) → Map String (Factory Client) → Map String (Factory Client)
  register [] m = m
  register (f ∷ fs) m = register fs (put f.kind f m)

  unfoldable pub new_registry : List (Factory Client) → Registry Client
  unfolding register
  new_registry fs = record { instances = empty_map; factories = register fs empty_map }

  abbrev store_instance :
      Instance → Registry Client → Option (Factory Client) → Result RegistryError (Registry Client)
  store_instance i r none = err (unsupported_kind i.kind)
  store_instance i r (some f) = ok (record r { instances = put i.id i r.instances })

  unfoldable pub upsert : Instance → Registry Client → Result RegistryError (Registry Client)
  unfolding validate_instance
  upsert i r = validate_instance i >> store_instance i r (r.factories i.kind)

  abbrev build : Instance → String → Option (Factory Client) → Integration Client
  build i token none = panicked
  build i token (some f) = client (f.new_client i token)

  abbrev serve : String → String → Registry Client → Option Instance → Integration Client
  serve id token r none = failed (instance_not_found id)
  serve id token r (some i) =
      if token == "" then failed connection_required else build i token (r.factories i.kind)

  unfoldable pub integration : String → String → Registry Client → Integration Client
  integration id token r = serve id token r (r.instances id)

  -- Every configured endpoint is of a kind that has a factory.
  pub record IsServed (r : Registry Client) : Type 0 where
    pub has_factory :
        (id : String) (i : Instance)
        → r.instances id ≡ some i
        → (f : Factory Client) × (r.factories i.kind ≡ some f)

  new_registry-IsServed : (fs : List (Factory Client)) → IsServed (new_registry fs)
  unfolding new_registry
  new_registry-IsServed fs = record { has_factory = λ id i h. absurd (cc) }

  -- A call of `Upsert` that succeeds has found a factory and stores the endpoint under its id.
  upsert-ok :
      (i : Instance) (r r' : Registry Client)
      → upsert i r ≡ ok r'
      → (f : Factory Client) × (r.factories i.kind ≡ some f)
        × (r' ≡ record r { instances = put i.id i r.instances })
  unfolding upsert
  upsert-ok i r r' h = elim (Result-cases (validate_instance i)) [
    | inl (u, valid) ↦ store_instance-ok (r.factories i.kind) (rw valid at h)
    | inr (e, invalid) ↦ absurd (err-ne-ok (rw invalid at h))
  ]
    where
      store_instance-ok :
          (o : Option (Factory Client))
          → store_instance i r o ≡ ok r'
          → (f : Factory Client) × (o ≡ some f)
            × (r' ≡ record r { instances = put i.id i r.instances })
      store_instance-ok none e = absurd (err-ne-ok e)
      store_instance-ok (some f) e = (f, refl, sym (ok-injective e))

  upsert-IsServed :
      (i : Instance) (r r' : Registry Client) → upsert i r ≡ ok r' → IsServed r → IsServed r'
  upsert-IsServed i r r' h served =
      let (f, found, same) = upsert-ok i r r' h in
      rw same (record {
        has_factory = λ id j k. elim (Bool-cases (i.id == id)) [
          | inl here ↦ let latest : i ≡ j = of_some (rw here at k) in (f, rw (← latest) found)
          | inr there ↦ served.has_factory id j (rw there at k)
        ];
      })

  -- `Upsert` of each endpoint in turn; one that is refused leaves the registry as it was.
  abbrev pub keep : Registry Client → Result RegistryError (Registry Client) → Registry Client
  keep r (ok r') = r'
  keep r (err e) = r

  pub configure : List Instance → Registry Client → Registry Client
  configure [] r = r
  configure (i ∷ is) r = configure is (keep r (upsert i r))

  configure-IsServed :
      (is : List Instance) (r : Registry Client) → IsServed r → IsServed (configure is r)
  unfolding configure
  configure-IsServed [] r served = served
  configure-IsServed (i ∷ is) r served =
      configure-IsServed is (keep r (upsert i r)) (kept (upsert i r) refl)
    where
      kept : (m : Result RegistryError (Registry Client)) → upsert i r ≡ m → IsServed (keep r m)
      kept (ok r') e = upsert-IsServed i r r' e served
      kept (err e) _ = served

  serve-ne-panicked :
      (id token : String) (r : Registry Client) → IsServed r → integration id token r ≢ panicked
  unfolding integration
  serve-ne-panicked id token r served h = elim (Option-cases (r.instances id)) [
    | inl missing ↦ failed-ne-panicked (rw missing at h)
    | inr (i, found) ↦
        let (f, has) = served.has_factory id i found in
        elim (Bool-cases (token == "")) [
          | inl empty ↦ failed-ne-panicked (rw (found, empty) at h)
          | inr given ↦ client-ne-panicked (rw (found, given, has) at h)
        ]
  ]
    where
      failed-ne-panicked :
          {e : RegistryError} → ◌≡◌ {A = Integration Client} (failed e) panicked → ⊥
      failed-ne-panicked k = cc

      client-ne-panicked : {c : Client} → ◌≡◌ {A = Integration Client} (client c) panicked → ⊥
      client-ne-panicked k = cc

  -- However a new registry is configured, asking it for an integration never calls a nil factory.
  pub integration-ne-panicked :
      (fs : List (Factory Client)) (is : List Instance) (id token : String)
      → integration id token (configure is (new_registry fs)) ≢ panicked
  integration-ne-panicked fs is id token =
      serve-ne-panicked id token _ (configure-IsServed is _ (new_registry-IsServed fs))

  -- After an endpoint has been upserted, a token gets the client that the factory of its kind
  -- makes for it, and what every other endpoint gives is unchanged.
  pub integration-upsert :
      (i : Instance) (r r' : Registry Client) (id token : String)
      → upsert i r ≡ ok r'
      → token ≢ ""
      → (f : Factory Client) × (r.factories i.kind ≡ some f)
        × (integration id token r'
            ≡ (if i.id == id then client (f.new_client i token) else integration id token r))
  unfolding integration
  integration-upsert i r r' id token h given =
      let (f, found, same) = upsert-ok i r r' h in
      let nonempty : (token == "") ≡ false = ground (arith, eq_iff token "") in
      (
        f,
        found,
        rw same (elim (Bool-cases (i.id == id)) [
          | inl here ↦ rw (here, nonempty, found)
          | inr there ↦ rw there
        ]),
      )
