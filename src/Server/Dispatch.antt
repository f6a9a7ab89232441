-- ===== src/Server/Dispatch.antt =====
-- What the dispatch depends on, and what `DEL` counts.
use hybird_kv.Prelude.{
  ℕ, suc, ◌+◌, ◌≡◌, refl, ◌∙◌, ap, arith, Bool, true, false, List, [], ◌∷◌, Bytes, bytes, ret,
  ==_iff, if◌then◌else◌,
}
use hybird_kv.Prelude.Int.{pos}
use hybird_kv.Common.Types.{ok}
use hybird_kv.Server.Commands.{
  KvEngine, integer, to_lower, eq_ignore_ascii_case, handle_ping, handle_get, handle_set,
  handle_del, delete_all, handle_expire, handle_ttl, dispatch_command,
}

-- Two spellings of a name that differ in case compare alike with any other.
same_matches :
    (a b c : Bytes)
    → eq_ignore_ascii_case a b ≡ true
    → eq_ignore_ascii_case a c ≡ eq_ignore_ascii_case b c
unfolding eq_ignore_ascii_case
same_matches [] [] c h = refl
same_matches [] (y ∷ b) c h = ground arith
same_matches (x ∷ a) [] c h = ground arith
same_matches (x ∷ a) (y ∷ b) [] h = refl
same_matches (x ∷ a) (y ∷ b) (z ∷ c) h =
    ground (arith, ==_iff (to_lower x) (to_lower y), same_matches a b c)

same_ping : (a b : Bytes) (args : List Bytes) → handle_ping (a ∷ args) ≡ handle_ping (b ∷ args)
unfolding handle_ping
same_ping a b [] = refl
same_ping a b (x ∷ []) = refl
same_ping a b (x ∷ y ∷ args) = refl

module _ {E : Type 0} ⦃m : KvEngine E⦄ where
  same_get :
      (a b : Bytes) (args : List Bytes) (e : E) → handle_get (a ∷ args) e ≡ handle_get (b ∷ args) e
  unfolding handle_get
  same_get a b [] e = refl
  same_get a b (x ∷ []) e = refl
  same_get a b (x ∷ y ∷ args) e = refl

  same_set :
      (a b : Bytes) (args : List Bytes) (e : E) → handle_set (a ∷ args) e ≡ handle_set (b ∷ args) e
  unfolding handle_set
  same_set a b [] e = refl
  same_set a b (x ∷ []) e = refl
  same_set a b (x ∷ y ∷ []) e = refl
  same_set a b (x ∷ y ∷ z ∷ []) e = refl
  same_set a b (x ∷ y ∷ z ∷ w ∷ []) e = refl
  same_set a b (x ∷ y ∷ z ∷ w ∷ v ∷ args) e = refl

  same_expire :
      (a b : Bytes) (args : List Bytes) (e : E)
      → handle_expire (a ∷ args) e ≡ handle_expire (b ∷ args) e
  unfolding handle_expire
  same_expire a b [] e = refl
  same_expire a b (x ∷ []) e = refl
  same_expire a b (x ∷ y ∷ []) e = refl
  same_expire a b (x ∷ y ∷ z ∷ args) e = refl

  same_del :
      (a b : Bytes) (args : List Bytes) (e : E) → handle_del (a ∷ args) e ≡ handle_del (b ∷ args) e
  unfolding handle_del
  same_del a b [] e = refl
  same_del a b (x ∷ args) e = refl

  same_ttl :
      (a b : Bytes) (args : List Bytes) (e : E) → handle_ttl (a ∷ args) e ≡ handle_ttl (b ∷ args) e
  unfolding handle_ttl
  same_ttl a b [] e = refl
  same_ttl a b (x ∷ []) e = refl
  same_ttl a b (x ∷ y ∷ args) e = refl

  -- Two names that are equal but for the case of ASCII letters, with the same arguments, get the
  -- same reply and leave the engine in the same state.
  pub dispatch_command_case :
      (info a b : Bytes) (args : List Bytes) (e : E)
      → eq_ignore_ascii_case a b ≡ true
      → dispatch_command info (a ∷ args) e ≡ dispatch_command info (b ∷ args) e
  unfolding dispatch_command
  dispatch_command_case info a b args e h = rw (
    same_matches a b (bytes "PING") h,
    same_matches a b (bytes "GET") h,
    same_matches a b (bytes "SET") h,
    same_matches a b (bytes "DEL") h,
    same_matches a b (bytes "EXPIRE") h,
    same_matches a b (bytes "TTL") h,
    same_matches a b (bytes "INFO") h,
    same_ping a b args,
    same_get a b args e,
    same_set a b args e,
    same_del a b args e,
    same_expire a b args e,
    same_ttl a b args e,
  )

  -- The engine deletes the keys one after the other without an error, and `n` of them were there.
  pub data Deletes : List Bytes → E → E → ℕ → Type 0 where
    all_deleted : (e : E) → Deletes [] e e 0
    one_deleted :
        (key : Bytes) (keys : List Bytes) (e e' e2 : E) (was : Bool) (n : ℕ)
        → m.delete key e ≡ ret (e', ok was)
        → Deletes keys e' e2 n
        → Deletes (key ∷ keys) e e2 (if was then suc n else n)

  delete_all-Deletes :
      (keys : List Bytes) (removed : ℕ) (e e2 : E) (n : ℕ)
      → Deletes keys e e2 n
      → delete_all keys removed e ≡ ret (e2, integer (pos (removed + n)))
  unfolding delete_all
  delete_all-Deletes _ removed _ _ _ (all_deleted e) =
      ap (λ k. ret (e, integer (pos k))) (omega arith)
  delete_all-Deletes _ removed _ _ _ (one_deleted key keys e e' e2 true n h d) = rw h (
      delete_all-Deletes keys (removed + 1) e' e2 n d
      ∙ ap (λ k. ret (e2, integer (pos k))) (omega arith))
  delete_all-Deletes _ removed _ _ _ (one_deleted key keys e e' e2 false n h d) =
      rw h (delete_all-Deletes keys removed e' e2 n d)

  -- If the engine deletes at least one key, one after the other, without an error, then `DEL` of
  -- those keys replies with the number of those that were there.
  pub handle_del-Deletes :
      (cmd key : Bytes) (keys : List Bytes) (e e2 : E) (n : ℕ)
      → Deletes (key ∷ keys) e e2 n
      → handle_del (cmd ∷ key ∷ keys) e ≡ ret (e2, integer (pos n))
  unfolding handle_del
  handle_del-Deletes cmd key keys e e2 n d =
      delete_all-Deletes (key ∷ keys) 0 e e2 n d ∙ ap (λ k. ret (e2, integer (pos k))) (omega arith)
