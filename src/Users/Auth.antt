-- ===== src/Users/Auth.antt =====
-- `Check` of service/rpc/auth.go: how an agent is known by its secret and its UUID. strings.TrimSpace,
-- uuid.ParseUUID, the generated name and the answer of `DB.Create` are arguments; the calls that
-- block and unblock an address are values.
use text.Mathlib.TextEquality.{eq_iff}
use mathlib.Core.Bool.{false≢true}
use nezha_diff.Base.{
  ℕ, ◌≡◌, ◌≢◌, ◌⊎◌, refl, ap, subst, sym, ◌∙◌, Bool, true, false, not, Option, none, some, String,
  List, [], ◌∷◌, arith, string_eq, nat_eq, ◌==◌, if◌then◌else◌, Option-cases, Bool-cases, inl, inr,
}
use nezha_diff.Outcome.{Outcome, ok, panic, ◌>>=◌, ok-of->>=, ok-injective}
use nezha_diff.GoMap.{lookup, lookup-insert}
use nezha_diff.ServerClass.{Server, ServerClass, update, sort_list}
use nezha_diff.ServerClass.Index.{IsIndexed, update_new-IsIndexed}
use nezha_diff.Users.{UserTables}

-- The two keys of the metadata that are read.
pub record Metadata : Type 0 where
  pub client_secret : Option (List String)
  pub client_uuid : Option (List String)

-- value[0], or the empty string without a value.
abbrev pub first_value : Option (List String) → Outcome String
first_value none = ok ""
first_value (some []) = panic
first_value (some (v ∷ vs)) = ok v

-- What is done to the address of the agent.
pub data WafCall : Type 0 where
  block_agent unblock_agent : WafCall

-- The number of the server or an error, the registry, and the calls.
pub record Checked (F : Type 0) : Type 0 where
  pub client : Option ℕ
  pub servers : ServerClass F
  pub calls : List WafCall

-- What the check gets from elsewhere: `zero_server` is what `InitServer` makes of the zero server.
pub record Tools (F : Type 0) : Type 0 where
  pub trim_space : String → String
  pub is_uuid : String → Bool
  pub zero_server : Server F
  pub pet_name : String
  pub created : Option ℕ

found_new :
    {F : Type 0} (c : ServerClass F) (s : Server F) (uuid : String)
    → uuid ≢ ""
    → lookup uuid ((update c s uuid).uuid_to_id) ≡ some s.id
unfolding update sort_list
found_new c s uuid filled =
    ground (arith, lookup-insert uuid uuid s.id c.uuid_to_id, eq_iff uuid uuid, eq_iff uuid "")

module _ {F : Type 0} where
  abbrev pub new_server : Tools F → ℕ → String → ℕ → Server F
  new_server tools owner uuid id = record (tools.zero_server) {
    id = id;
    user_id = owner;
    name = tools.pet_name;
    uuid = uuid;
  }

  abbrev pub secret_text : Tools F → Option (List String) → Outcome String
  secret_text tools none = ok ""
  secret_text tools (some []) = panic
  secret_text tools (some (v ∷ vs)) = ok (tools.trim_space v)

  -- From the parsing of the UUID on.
  unfoldable pub check_uuid : Tools F → ℕ → String → ServerClass F → Checked F
  check_uuid tools owner uuid c =
      if not (tools.is_uuid uuid)
      then record { client = none; servers = c; calls = unblock_agent ∷ [] }
      else elim (lookup uuid c.uuid_to_id) [
        | some id ↦ record { client = some id; servers = c; calls = unblock_agent ∷ [] }
        | none ↦ elim tools.created [
          | none ↦ record { client = none; servers = c; calls = unblock_agent ∷ [] }
          | some id ↦ record {
            client = some id;
            servers = update c (new_server tools owner uuid id) uuid;
            calls = unblock_agent ∷ [];
          }
        ]
      ]

  unfoldable pub check :
      Tools F → Option Metadata → UserTables → ServerClass F → Outcome (Checked F)
  check tools none t c = ok (record { client = none; servers = c; calls = [] })
  check tools (some md) t c = do
    trimmed ← secret_text tools md.client_secret
    if trimmed == ""
        then ok (record { client = none; servers = c; calls = [] })
        else elim (lookup trimmed t.agent_secret_to_user_id) [
          | none ↦ ok (record { client = none; servers = c; calls = block_agent ∷ [] })
          | some owner ↦ (first_value md.client_uuid >>= λ uuid. ok (check_uuid tools owner uuid c))
        ]

  -- The reply names the server of the UUID in the registry that it leaves.
  abbrev pub IsKnown : Tools F → String → Checked F → Type 0
  IsKnown tools uuid r =
      IsIndexed r.servers
      × ((r.client ≡ none)
          ⊎ ((tools.is_uuid uuid ≡ true) × (r.client ≡ lookup uuid r.servers.uuid_to_id)))

  check_uuid-IsKnown :
      (tools : Tools F) (owner : ℕ) (uuid : String) (c : ServerClass F)
      → IsIndexed c
      → (tools.is_uuid "" ≡ false)
      → ((id : ℕ) → tools.created ≡ some id → lookup id c.list ≡ none)
      → IsKnown tools uuid (check_uuid tools owner uuid c)
  unfolding check_uuid
  check_uuid-IsKnown tools owner uuid c v no_empty fresh = elim (Bool-cases (tools.is_uuid uuid)) [
    | inr bad ↦ (ground (arith, v, bad), ground (arith, bad))
    | inl good ↦ elim (Option-cases (lookup uuid c.uuid_to_id)) [
      | inr (id, e) ↦ (ground (arith, v, good, e), ground (arith, good, e))
      | inl e ↦ elim (Option-cases tools.created) [
        | inl f ↦ (ground (arith, v, good, e, f), ground (arith, good, e, f))
        | inr (id, f) ↦
            let filled : uuid ≢ "" =
              λ same. false≢true (sym no_empty ∙ ap tools.is_uuid (sym same) ∙ good) in
            let indexed : IsIndexed (update c (new_server tools owner uuid id) uuid) =
              update_new-IsIndexed c (new_server tools owner uuid id) v filled (fresh id f) e in
            let found : lookup uuid ((update c (new_server tools owner uuid id) uuid).uuid_to_id)
                ≡ some id =
              found_new c (new_server tools owner uuid id) uuid filled in
            (ground (arith, indexed, good, e, f), ground (arith, found, good, e, f))
      ]
    ]
  ]

  -- An agent is refused, or it has a secret of the table and a UUID, and is the server that the
  -- registry has under this UUID.
  abbrev pub IsAnswered : Tools F → Metadata → UserTables → Checked F → Type 0
  IsAnswered tools md t out =
      IsIndexed out.servers
      × ((out.client ≡ none)
          ⊎ ((secret : String) × (uuid : String) × (owner : ℕ) × (secret_text tools md.client_secret
                ≡ ok secret)
              × (lookup secret t.agent_secret_to_user_id ≡ some owner)
              × (first_value md.client_uuid ≡ ok uuid)
              × (tools.is_uuid uuid ≡ true)
              × (out.client ≡ lookup uuid out.servers.uuid_to_id)))

  -- An agent is accepted only with a secret of the table and a UUID, and then as the server that the
  -- registry has under this UUID, new if need be; the index of the registry stays right. This holds
  -- if a number that the database gives is new, and the empty text is no UUID.
  pub check-IsAnswered :
      (tools : Tools F) (md : Metadata) (t : UserTables) (c : ServerClass F) (out : Checked F)
      → check tools (some md) t c ≡ ok out
      → IsIndexed c
      → tools.is_uuid "" ≡ false
      → ((id : ℕ) → tools.created ≡ some id → lookup id c.list ≡ none)
      → IsAnswered tools md t out
  unfolding check
  check-IsAnswered tools md t c out h v no_empty fresh =
      let (secret, rest, first) = ok-of->>= (secret_text tools md.client_secret) _ h in
      elim (Bool-cases (secret == "")) [
        | inl blank ↦
            let same : record { client = none; servers = c; calls = [] } ≡ out =
              ok-injective (ground (arith, rest, blank)) in
            subst (IsAnswered tools md t) same (v, inl refl)
        | inr given ↦ elim (Option-cases (lookup secret t.agent_secret_to_user_id)) [
          | inl unknown ↦
              let same : record { client = none; servers = c; calls = block_agent ∷ [] } ≡ out =
                ok-injective (ground (arith, rest, given, unknown)) in
              subst (IsAnswered tools md t) same (v, inl refl)
          | inr (owner, e) ↦
              let accepted : (first_value md.client_uuid >>= λ uuid.
              ok (check_uuid tools owner uuid c))
                  ≡ ok out =
                ground (arith, rest, given, e) in
              let (uuid, made, second) =
                ok-of->>= (first_value md.client_uuid) (λ uuid. ok (check_uuid tools owner uuid c))
                  accepted in
              let (indexed, known) = check_uuid-IsKnown tools owner uuid c v no_empty fresh in
              subst (IsAnswered tools md t) (ok-injective made) (
                indexed,
                elim known [
                  | inl refused ↦ inl refused
                  | inr (good, client) ↦ inr (secret, uuid, owner, first, e, second, good, client)
                ],
              )
        ]
      ]
