-- ===== src/Sessions/Service/Steps.antt =====
-- Putting back a record that was read from the file.
use kode_stream.Prelude.{
  ◌≡◌, refl, sym, ap, ◌∙◌, subst, Bool, true, false, ◌||◌, List, [], ◌∷◌, map, none, some, ok, Text,
  text_eq, text_beq_iff, ◌==◌, beq_self, All-of, All-at, In, arith, inl, inr, Bool-cases, >>=-eq-ok,
  ok-injective, Map, of_some,
}
use kode_stream.Sessions.Durable.{Disk}
use kode_stream.Sessions.Records.{SessionRecord, normalize_session_record}
use kode_stream.Sessions.Records.Laws.{clash, keys_clash, IsApart}
use kode_stream.Sessions.Repository.{Codec, IsCodec, Io, load, find_record, upsert}
use kode_stream.Sessions.Repository.Placing.{by_id, IsKeyFree, clash_back}
use kode_stream.Sessions.Repository.Laws.{view, IsPut, loaded-IsStore, upsert-IsPut}

pub by_id-In :
    (rs : List SessionRecord) (i : Text) (r : SessionRecord)
    → by_id rs i ≡ some r
    → In r rs × (r.id ≡ i)
unfolding find_record
by_id-In [] i r h = cc
by_id-In (s ∷ rs) i r h = elim (Bool-cases (s.id == i)) [
  | inl t ↦
      let same : s ≡ r = of_some (rw t at h) in
      (inl same, ap (λ (q : SessionRecord). q.id) (sym same) ∙ (text_beq_iff s.id i).0 t)
  | inr f ↦ let (m, e) = by_id-In rs i r (rw f at h) in (inr m, e)
]

pub In-by_id :
    (rs : List SessionRecord) (r : SessionRecord) → IsApart rs → In r rs → by_id rs r.id ≡ some r
unfolding find_record
In-by_id (s ∷ rs) r (a, apart) (inl e) =
    subst (λ q. by_id (s ∷ rs) q.id ≡ some q) e (rw (beq_self s.id) refl)
In-by_id (s ∷ rs) r (a, apart) (inr m) =
    let other : (s.id == r.id) ≡ false =
      let h = All-at (λ t. clash s t ≡ false) rs r a m in ground arith in
    rw other (In-by_id rs r apart m)
In-by_id [] r apart m = absurd m

not_both : (b k : Bool) → (b || k) ≡ false → k ≡ true → ⊥
not_both true k h e = cc
not_both false k h e = cc

pub one_key :
    (rs : List SessionRecord) (r s : SessionRecord)
    → IsApart rs
    → In r rs
    → In s rs
    → keys_clash r s ≡ true
    → s.id ≡ r.id
one_key (q ∷ rs) r s (a, apart) (inl e) (inl f) h = ap (λ (t : SessionRecord). t.id) (sym f ∙ e)
one_key (q ∷ rs) r s (a, apart) (inl e) (inr m) h =
    let no : clash r s ≡ false =
      subst (λ t. clash t s ≡ false) e (All-at (λ t. clash q t ≡ false) rs s a m) in
    absurd (not_both (r.id == s.id) (keys_clash r s) no h)
one_key (q ∷ rs) r s (a, apart) (inr m) (inl e) h =
    let no : clash s r ≡ false =
      subst (λ t. clash t r ≡ false) e (All-at (λ t. clash q t ≡ false) rs r a m) in
    let flipped : clash r s ≡ false = clash_back r s ∙ no in
    absurd (not_both (r.id == s.id) (keys_clash r s) flipped h)
one_key (q ∷ rs) r s (a, apart) (inr m) (inr n) h = one_key rs r s apart m n h
one_key [] r s apart m n h = absurd m

-- A record with the id, the workspace and the key of one that is stored.
pub key_free :
    (rs : List SessionRecord) (r n : SessionRecord)
    → IsApart rs
    → In r rs
    → n.id ≡ r.id
    → ((s : SessionRecord) → keys_clash n s ≡ true → keys_clash r s ≡ true)
    → IsKeyFree n rs
key_free rs r n apart m same keys =
    All-of (λ s. keys_clash n s ≡ true → s.id ≡ n.id) rs
      (λ s inside. λ h. one_key rs r s apart m inside (keys s h) ∙ sym same)

pub stored_normal :
    (rs : List SessionRecord) (r : SessionRecord)
    → map normalize_session_record rs ≡ rs
    → In r rs
    → normalize_session_record r ≡ r
stored_normal (s ∷ rs) r h (inl e) =
    subst (λ q. normalize_session_record q ≡ q) e
      (let first : normalize_session_record s ≡ s = cc in first)
stored_normal (s ∷ rs) r h (inr m) =
    stored_normal rs r (let rest : map normalize_session_record rs ≡ rs = cc in rest) m
stored_normal [] r h m = absurd m

module _ (c : Codec) where
  pub view-loaded :
      (d : Disk) (m : Map Text SessionRecord)
      → view c d ≡ ok m
      → (rs : List SessionRecord) × (load c none d ≡ ok rs) × (by_id rs ≡ m)
  view-loaded d m h =
      let (rs, loaded, e) = >>=-eq-ok (load c none d) _ h in (rs, loaded, ok-injective e)

  -- A file that reads as `m`, or one that has outgrown the limit; here what putting the record `n`
  -- under the id of a stored record `r` makes of it.
  pub stored-IsPut :
      IsCodec c
      → (io : Io) (rs : List SessionRecord) (r n : SessionRecord) (d : Disk)
      → io.publishing.stat_fails ≡ false
      → load c none d ≡ ok rs
      → In r rs
      → (normalize_session_record r ≡ r → normalize_session_record n ≡ n)
      → n.id ≡ r.id
      → ((s : SessionRecord) → keys_clash n s ≡ true → keys_clash r s ≡ true)
      → IsPut c n rs d (upsert c io n d)
  stored-IsPut law io rs r n d stat loaded m normal same keys =
      let (now, normals, sounds, apart) = loaded-IsStore c none d rs loaded in
      let fixed : normalize_session_record n ≡ n = normal (stored_normal rs r normals m) in
      subst (λ q. IsPut c q rs d (upsert c io n d)) fixed
        (upsert-IsPut c law io n rs d stat loaded
          (subst (λ q. IsKeyFree q rs) (sym fixed) (key_free rs r n apart m same keys)))
