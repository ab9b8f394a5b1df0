-- ===== src/Provider/Connections.antt =====
-- internal/provider/connection.go: the tokens of the users, by a joined key.
use kode_stream.Prelude.{
  ◌≡◌, ◌≢◌, refl, sym, ap, ◌||◌, ◌&&◌, [], ◌∷◌, ◌++◌, append_assoc, Option, none, some, Map,
  empty_map, put, remove, put_self, Text, text_eq, ◌==◌, Result, ok, err, ok-injective, err-ne-ok,
  All, arith, if◌then◌else◌, Bool-cases, inl, inr,
}

pub record ConnectionStore : Type 0 where
  pub tokens : Map Text Text

pub data SaveError : Type 0 where
  all_required : SaveError

unfoldable pub new_connection_store : ConnectionStore
new_connection_store = record { tokens = empty_map }

-- `userID + ":" + instanceID`
abbrev pub key : Text → Text → Text
key user instance_id = user ++ (b':' ∷ instance_id)

unfoldable pub save : Text → Text → Text → ConnectionStore → Result SaveError ConnectionStore
save user instance_id token s =
    if user == [] || instance_id == [] || token == []
    then err all_required
    else ok (record { tokens = put (key user instance_id) token s.tokens })

unfoldable pub token_of : Text → Text → ConnectionStore → Option Text
token_of user instance_id s = s.tokens (key user instance_id)

unfoldable pub revoke : Text → Text → ConnectionStore → ConnectionStore
revoke user instance_id s = record { tokens = remove (key user instance_id) s.tokens }

-- A user id without the separator of the keys.
abbrev pub HasNoColon : Text → Type 0
HasNoColon = All (λ c. c ≢ b':')

key_beq : (u v i j : Text) → HasNoColon u → HasNoColon v → (key u i == key v j) ≡ (u == v && i == j)
key_beq [] [] i j h k = refl
key_beq [] (d ∷ v) i j h (hd, k) = ground arith
key_beq (c ∷ u) [] i j (hc, h) k = ground arith
key_beq (c ∷ u) (d ∷ v) i j (hc, h) (hd, k) = ground (arith, key_beq u v i j h k)

save-tokens :
    (u i t : Text) (s s' : ConnectionStore)
    → save u i t s ≡ ok s'
    → s'.tokens ≡ put (key u i) t s.tokens
unfolding save
save-tokens u i t s s' e = elim (Bool-cases (u == [] || i == [] || t == [])) [
  | inl missing ↦ absurd (err-ne-ok (rw missing at e))
  | inr given ↦ ap (λ (r : ConnectionStore). r.tokens) (sym (ok-injective (rw given at e)))
]

-- Saving a connection stores its token for that user and endpoint, and leaves those of every other
-- user and endpoint alone, if the user ids hold no colon.
pub token_of-save :
    (u v i j t : Text) (s s' : ConnectionStore)
    → HasNoColon u
    → HasNoColon v
    → save u i t s ≡ ok s'
    → token_of v j s' ≡ (if u == v && i == j then some t else token_of v j s)
unfolding save token_of
token_of-save u v i j t s s' h k e = rw (save-tokens u i t s s' e) (rw (key_beq u v i j h k))

-- Revoking removes that one connection, if the user ids hold no colon.
pub token_of-revoke :
    (u v i j : Text) (s : ConnectionStore)
    → HasNoColon u
    → HasNoColon v
    → token_of v j (revoke u i s) ≡ (if u == v && i == j then none else token_of v j s)
unfolding revoke token_of
token_of-revoke u v i j s h k = rw (key_beq u v i j h k)

-- The joined key is ambiguous: a token that the user `a:b` saved for the endpoint `c` is also
-- the token of the user `a` for the endpoint `b:c`.
pub token_of_collision :
    (a b c t : Text) (s s' : ConnectionStore)
    → save (a ++ (b':' ∷ b)) c t s ≡ ok s'
    → token_of a (b ++ (b':' ∷ c)) s' ≡ some t
unfolding save token_of
token_of_collision a b c t s s' e =
    rw (save-tokens (a ++ (b':' ∷ b)) c t s s' e)
      (rw (append_assoc a) (put_self (key a (b ++ (b':' ∷ c))) t s.tokens))
