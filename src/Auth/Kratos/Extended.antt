-- ===== src/Auth/Kratos/Extended.antt =====
-- What an extension of a session has passed, and when the session then ends.
use uber_clone.Common.{
  ℕ, ◌≡◌, ◌<◌, ◌≤◌, sym, ◌∙◌, ap, subst, false, not, ◌++◌, ◌==◌, ltb, leb, ok, arith,
}
use uber_clone.Common.Exchange.Inversion.{
  >>=-inv, fail_if-inv, answer-inv, answer-same, relabel-inv,
}
use uber_clone.Common.Text.{Text, codes, is_empty}
use uber_clone.Auth.{
  Failure, known, unavailable, invalid_credentials, session_not_extendable, Session, extend_session,
  answer, fail_if, relabel,
}
use uber_clone.Auth.Kratos.{Reply, Server, bearer, ask, lost, seconds_left}
use uber_clone.Auth.Kratos.Sessions.{session, extend, extension, ensure_verified_session, kratos}
use uber_clone.Auth.Kratos.Verified.{IsVerified, ensure-IsVerified}

-- The session of a token was read, extended and read again, with nothing in between.
pub record IsExtended {S : Type 0} (k : Server S) (now : ℕ) (header : Text) (x : Session) (s s' : S)
    : Type 0 where
  pub id : Text
  pub id_again : Text
  pub before : ℕ
  pub after : ℕ
  pub read : S
  pub extended : S
  pub reply : Reply
  pub shown : session k (bearer header) s ≡ (ok (id, before), read)
  pub asked :
      ask k (extension (codes "/sessions/" ++ k.escape id ++ codes "/extend")) read
      ≡ (ok reply, extended)
  pub is_done : leb 300 reply.status ≡ false
  pub shown_again : session k (bearer header) extended ≡ (ok (id_again, after), s')
  pub advanced : before < after
  pub same_token : x.access_token ≡ bearer header
  pub lifetime : x.expires_in ≡ seconds_left now after
  pub lasts : 1 ≤ x.expires_in

is_less : (a b : ℕ) → not (ltb a b) ≡ false → a < b
is_less a b h = ground arith

lasting : (now at : ℕ) → 1 ≤ seconds_left now at
lasting now at = omega arith

module _ {S : Type 0} (k : Server S) where
  abbrev path_of : Text → Text
  path_of id = codes "/sessions/" ++ k.escape id ++ codes "/extend"

  abbrev answered : Text → ℕ → ℕ → Session
  answered token now at = record { access_token = token; expires_in = seconds_left now at }

  steps-IsExtended :
      (now : ℕ) (header : Text) (current updated : Text × ℕ) (r : Reply) (s s₁ s₂ : S)
      {s₃ s₄ s₅ s₆ s' : S} {x : Session} {t t' t'' : Unit {0}}
      → session k (bearer header) s ≡ (ok current, s₁)
      → relabel lost (ask k (extension (path_of current.0))) s₁ ≡ (ok r, s₂)
      → fail_if (r.status == 404) (known session_not_extendable) s₂ ≡ (ok t, s₃)
      → fail_if (leb 300 r.status) (known unavailable) s₃ ≡ (ok t', s₄)
      → session k (bearer header) s₄ ≡ (ok updated, s₅)
      → fail_if (not (ltb current.1 updated.1)) (known session_not_extendable) s₅ ≡ (ok t'', s₆)
      → answer {E = Failure} (answered (bearer header) now updated.1) s₆ ≡ (ok x, s')
      → IsExtended k now header x s s'
  steps-IsExtended now header current updated r s s₁ s₂ {s₃} {s₄} {s₅} {s₆} {s'} e₁ e₂ e₃ e₄ e₅ e₆
        h =
      let (done, w₄) = fail_if-inv _ _ s₃ e₄ in
      let w₃ = (fail_if-inv _ _ s₂ e₃).1 in
      let (later, w₆) = fail_if-inv _ _ s₅ e₆ in
      let same = answer-same _ s₆ h in
      let w = answer-inv _ s₆ h ∙ w₆ in
      record {
        id = current.0;
        id_again = updated.0;
        before = current.1;
        after = updated.1;
        read = s₁;
        extended = s₂;
        reply = r;
        shown = e₁;
        asked = relabel-inv lost (ask k (extension (path_of current.0))) s₁ e₂;
        is_done = done;
        shown_again =
            subst (λ d. session k (bearer header) d ≡ (ok updated, s₅)) (w₄ ∙ w₃) e₅
            ∙ (λ i. (ok updated, sym w i));
        advanced = is_less current.1 updated.1 later;
        same_token = sym (ap (λ (y : Session). y.access_token) same);
        lifetime = sym (ap (λ (y : Session). y.expires_in) same);
        lasts = subst (λ (y : Session). 1 ≤ y.expires_in) same (lasting now updated.1);
      }

  extend-IsExtended :
      (now : ℕ) (header : Text) (s : S) {x : Session} {s' : S}
      → extend k now header s ≡ (ok x, s')
      → IsExtended k now header x s s'
  unfolding extend
  extend-IsExtended now header s {x} {s'} h =
      let (t, s₀, e₀, h₀) =
        >>=-inv (fail_if (is_empty (bearer header)) (known invalid_credentials)) _ s h in
      let w₀ = (fail_if-inv _ _ s e₀).1 in
      let (current, s₁, e₁, h₁) = >>=-inv (session k (bearer header)) _ s₀ h₀ in
      let (r, s₂, e₂, h₂) =
        >>=-inv (relabel lost (ask k (extension (path_of current.0)))) _ s₁ h₁ in
      let (t₂, s₃, e₃, h₃) =
        >>=-inv (fail_if (r.status == 404) (known session_not_extendable)) _ s₂ h₂ in
      let (t₃, s₄, e₄, h₄) = >>=-inv (fail_if (leb 300 r.status) (known unavailable)) _ s₃ h₃ in
      let (updated, s₅, e₅, h₅) = >>=-inv (session k (bearer header)) _ s₄ h₄ in
      let (t₅, s₆, e₆, h₆) =
        >>=-inv (fail_if (not (ltb current.1 updated.1)) (known session_not_extendable)) _ s₅ h₅ in
      let e = subst (λ d. session k (bearer header) d ≡ (ok current, s₁)) w₀ e₁ in
      steps-IsExtended now header current updated r s s₁ s₂ e e₂ e₃ e₄ e₅ e₆ h₆

-- An extension that succeeds was asked for a session with a verified address. The server was asked to
-- extend the session of the token, and showed a later end of it than before. The answer is the same
-- token, with the whole seconds up to that end, at least one.
pub extend_session-IsExtended :
    {S : Type 0} (k : Server S) (now : ℕ) (header : Text) (s : S) {x : Session} {s' : S}
    → extend_session (kratos k) now header s ≡ (ok x, s')
    → (s₁ : S) × IsVerified k header s s₁ × IsExtended k now header x s₁ s'
unfolding extend_session
extend_session-IsExtended k now header s h =
    let (t, s₁, e, extended) = >>=-inv (ensure_verified_session k header) _ s h in
    (s₁, ensure-IsVerified k header s e, extend-IsExtended k now header s₁ extended)
