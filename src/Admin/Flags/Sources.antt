-- ===== src/Admin/Flags/Sources.antt =====
-- Password sessions of internal/admin/admin.go as a source of flags.
use annoybots.Base.{
  ℕ, ◌+◌, Bool, true, false, ◌&&◌, ◌≡◌, refl, ◌∙◌, [], ◌∷◌, none, Text, arith, lookup-insert,
  lookup-delete, text_eq_refl, ltb, if◌then◌else◌,
}
use annoybots.Admin.Flags.{
  flag_master, Message, Console, sess_key, account_flags, host_flags, session_flags, flags_for, has,
  has_flag, holds_rank, grant_session, clear_session,
}

account_flags-session :
    (m : Console) (now : ℕ) (msg who : Message)
    → (account_flags (grant_session m now msg) who ≡ account_flags m who)
      × (host_flags (grant_session m now msg) who ≡ host_flags m who)
      × (account_flags (clear_session m msg) who ≡ account_flags m who)
      × (host_flags (clear_session m msg) who ≡ host_flags m who)
unfolding account_flags host_flags grant_session clear_session
account_flags-session m now msg who = (refl, refl, refl, refl)

session_flags-grant :
    (m : Console) (now t : ℕ) (msg : Message)
    → session_flags (grant_session m now msg) t msg
      ≡ (if ltb t (now + m.ttl) then flag_master ∷ [] else [])
unfolding session_flags grant_session
session_flags-grant m now t msg = ground (
  arith,
  lookup-insert (sess_key msg) (sess_key msg) (now + m.ttl) m.sessions,
  text_eq_refl (sess_key msg),
)

session_flags-clear :
    (m : Console) (t : ℕ) (msg : Message) → session_flags (clear_session m msg) t msg ≡ []
unfolding session_flags clear_session
session_flags-clear m t msg =
    ground
      (arith, lookup-delete (sess_key msg) (sess_key msg) m.sessions, text_eq_refl (sess_key msg))

has_flag-if :
    (b : Bool) (f : Text) (want : ℕ)
    → has_flag [] want ≡ false
    → has_flag (if b then f else []) want ≡ (b && has_flag f want)
has_flag-if true f want h = refl
has_flag-if false f want h = h

has_flag-nil : (want : ℕ) → has_flag [] want ≡ false
unfolding has_flag holds_rank
has_flag-nil want = ground arith

sessions_only :
    (m : Console) (t : ℕ) (msg : Message)
    → account_flags m msg ≡ none
    → host_flags m msg ≡ none
    → flags_for m t msg ≡ session_flags m t msg
unfolding flags_for
sessions_only m t msg a h = ground arith

-- A password session gives a sender without an account or hostmask entry exactly what master
-- grants, until the session's time is over; and nothing is left of it after a logout.
pub has-grant_session :
    (m : Console) (now t : ℕ) (msg : Message) (want : ℕ)
    → account_flags m msg ≡ none
    → host_flags m msg ≡ none
    → (has (grant_session m now msg) t msg want
        ≡ (ltb t (now + m.ttl) && has_flag (flag_master ∷ []) want))
      × (has (clear_session (grant_session m now msg) msg) t msg want ≡ false)
unfolding has
has-grant_session m now t msg want a h = (
  rw (sessions_only granted t msg (left.0 ∙ a) (left.1 ∙ h), session_flags-grant m now t msg)
      (has_flag-if (ltb t (now + m.ttl)) (flag_master ∷ []) want (has_flag-nil want)),
  rw
      (
        sessions_only (clear_session granted msg) t msg (gone.2 ∙ left.0 ∙ a) (gone.3 ∙ left.1 ∙ h),
        session_flags-clear granted t msg,
      )
      (has_flag-nil want),
)
  where
    granted : Console
    granted = grant_session m now msg

    left :
        (account_flags granted msg ≡ account_flags m msg)
        × (host_flags granted msg ≡ host_flags m msg)
        × (account_flags (clear_session m msg) msg ≡ account_flags m msg)
        × (host_flags (clear_session m msg) msg ≡ host_flags m msg)
    left = account_flags-session m now msg msg

    gone :
        (account_flags (grant_session granted now msg) msg ≡ account_flags granted msg)
        × (host_flags (grant_session granted now msg) msg ≡ host_flags granted msg)
        × (account_flags (clear_session granted msg) msg ≡ account_flags granted msg)
        × (host_flags (clear_session granted msg) msg ≡ host_flags granted msg)
    gone = account_flags-session granted now msg msg
