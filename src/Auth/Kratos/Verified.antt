-- ===== src/Auth/Kratos/Verified.antt =====
-- What a login and an extension that the server's replies let through promise of the session.
use uber_clone.Common.{
  ◌≡◌, sym, ◌∙◌, subst, Bool, true, false, not, some, List, ◌==◌, leb, ok, arith,
}
use uber_clone.Common.Exchange.Inversion.{
  >>=-inv, fail_if-inv, answer-inv, answer-same, or_fail-inv, relabel-inv,
}
use uber_clone.Common.Text.{Text, is_empty}
use uber_clone.Auth.{known, unavailable, invalid_credentials, verified, fail_if, or_fail, relabel}
use uber_clone.Auth.Kratos.{Reply, Server, bearer, whoami, ask, replied, lost}
use uber_clone.Auth.Kratos.Sessions.{any_verified, who, session, ensure_verified_session}

-- What the server documents about the session of a token.
pub record IsKratos {S : Type 0} (k : Server S) : Type 0 where
  pub reads : (token : Text) (s : S) → (k.send (whoami token) s).1 ≡ s
  pub found :
      (token : Text) (s : S) (r : Reply)
      → (k.send (whoami token) s).0 ≡ some r
      → leb 300 r.status ≡ false
      → (r.status == 401) ≡ false
      → r.status ≡ 200
  pub identity :
      (body : Text) (l : List Bool)
      → k.addresses_body body ≡ some l
      → (id : Text) × (is_empty id ≡ false) × (k.identity_body body ≡ some (id, l))

-- The reply about a token's session shows a verified address.
pub record IsVerified {S : Type 0} (k : Server S) (token : Text) (s s' : S) : Type 0 where
  pub reply : Reply
  pub addresses : List Bool
  pub some_token : is_empty (bearer token) ≡ false
  pub asked : ask k (whoami (bearer token)) s ≡ (ok reply, s')
  pub is_session : (reply.status == 401) ≡ false
  pub is_found : leb 300 reply.status ≡ false
  pub decoded : k.addresses_body reply.body ≡ some addresses
  pub is_verified : any_verified addresses ≡ true

unnegated : (b : Bool) → not b ≡ false → b ≡ true
unnegated b h = ground arith

module _ {S : Type 0} (k : Server S) where
  who-inv :
      (token : Text) (s : S) {r : Reply} {s' : S}
      → who k token s ≡ (ok r, s')
      → (ask k (whoami token) s ≡ (ok r, s'))
        × ((r.status == 401) ≡ false)
        × (leb 300 r.status ≡ false)
  unfolding who
  who-inv token s {r} {s'} h =
      let (r', s₁, e₁, h₁) = >>=-inv (relabel lost (ask k (whoami token))) _ s h in
      let (t, s₂, e₂, h₂) =
        >>=-inv (fail_if (r'.status == 401) (known invalid_credentials)) _ s₁ h₁ in
      let (t', s₃, e₃, h₃) = >>=-inv (fail_if (leb 300 r'.status) (known unavailable)) _ s₂ h₂ in
      let (found, w₂) = fail_if-inv _ _ s₁ e₂ in
      let (fine, w₃) = fail_if-inv _ _ s₂ e₃ in
      let same : r' ≡ r = answer-same r' s₃ h₃ in
      let w : s' ≡ s₁ = answer-inv r' s₃ h₃ ∙ w₃ ∙ w₂ in
      (
        relabel-inv lost (ask k (whoami token)) s e₁ ∙ (λ i. (ok (same i), sym w i)),
        subst (λ (x : Reply). (x.status == 401) ≡ false) same found,
        subst (λ (x : Reply). leb 300 x.status ≡ false) same fine,
      )

  pub ensure-IsVerified :
      (token : Text) (s : S) {t : Unit {0}} {s' : S}
      → ensure_verified_session k token s ≡ (ok t, s')
      → IsVerified k token s s'
  unfolding ensure_verified_session
  ensure-IsVerified token s {t} {s'} h =
      let (_, s₁, e₁, h₁) =
        >>=-inv (fail_if (is_empty (bearer token)) (known invalid_credentials)) _ s h in
      let (r, s₂, e₂, h₂) = >>=-inv (who k (bearer token)) _ s₁ h₁ in
      let (l, s₃, e₃, h₃) =
        >>=-inv (or_fail (k.addresses_body r.body) (known unavailable)) _ s₂ h₂ in
      let (given, w₁) = fail_if-inv _ _ s e₁ in
      let (decoded, w₃) = or_fail-inv _ _ s₂ e₃ in
      let (verified, w₄) = fail_if-inv _ _ s₃ h₃ in
      let asked : who k (bearer token) s ≡ (ok r, s') =
        subst (λ x. who k (bearer token) x ≡ (ok r, s₂)) w₁ e₂ ∙ (λ i. (ok r, sym (w₄ ∙ w₃) i)) in
      let (replied, session, fine) = who-inv (bearer token) s asked in
      record {
        reply = r;
        addresses = l;
        some_token = given;
        asked = replied;
        is_session = session;
        is_found = fine;
        decoded = decoded;
        is_verified = unnegated (any_verified l) verified;
      }
