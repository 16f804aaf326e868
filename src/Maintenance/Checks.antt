-- ===== src/Maintenance/Checks.antt =====
-- Asking a provider whether the stored credentials still work (src/lenovmail/maintenance.py,
-- `check_account`). What the pool, the connection and the Graph client do is an argument; an exception
-- that no clause names ends the whole sweep.
use lenovmail.Prelude.{
  ℕ, ◌≡◌, inl, inr, Bool, true, false, ◌&&◌, ◌||◌, Option, none, some, arith, ◌==◌, if◌then◌else◌,
  Bool-cases, is_some,
}
use lenovmail.Text.{Text}
use lenovmail.Maintenance.{valid, invalid, unknown, CredentialCheck}

-- How a step of the IMAP client ends.
pub data MailEnd : Type 0 where
  mail_ok : MailEnd
  mail_auth mail_config mail_transient mail_permanent mail_os mail_other : Text → MailEnd

-- What a check gives: a verdict, or an exception that passes through.
pub data Verdict : Type 0 where
  verdict : CredentialCheck → Verdict
  uncaught : Text → Verdict

abbrev pub as_invalid : Text → Verdict
as_invalid e = verdict (record { state = invalid; detail = some e })

abbrev pub as_unknown : Text → Verdict
as_unknown e = verdict (record { state = unknown; detail = some e })

abbrev pub as_valid : Verdict
as_valid = verdict (record { state = valid; detail = none })

-- The second `try` of `_check_imap`, around the NOOP.
after_noop : MailEnd → Verdict
after_noop mail_ok = as_valid
after_noop (mail_auth e) = as_invalid e
after_noop (mail_config e) = as_invalid e
after_noop (mail_transient e) = as_unknown e
after_noop (mail_permanent e) = as_unknown e
after_noop (mail_os e) = as_unknown e
after_noop (mail_other e) = uncaught e

-- `_check_imap`; the first `try` is around opening the pool.
pub check_imap : MailEnd → MailEnd → Verdict
unfolding after_noop
check_imap mail_ok noop = after_noop noop
check_imap (mail_auth e) noop = as_invalid e
check_imap (mail_config e) noop = as_invalid e
check_imap (mail_transient e) noop = as_unknown e
check_imap (mail_permanent e) noop = uncaught e
check_imap (mail_os e) noop = uncaught e
check_imap (mail_other e) noop = uncaught e

-- How `client.me` and `save_graph_tokens` end; a request error has its status code.
pub data GraphReply : Type 0 where
  reply_ok : GraphReply
  reply_auth reply_transient reply_os reply_config reply_other : Text → GraphReply
  reply_request : ℕ → Text → GraphReply

-- `_GRAPH_INVALID_STATUS`
abbrev pub is_invalid_status : ℕ → Bool
is_invalid_status code = code == 401 || code == 403

-- Storing the tokens stands in the `else` clause, outside the `except` clauses.
after_save : GraphReply → Verdict
after_save reply_ok = as_valid
after_save (reply_auth e) = uncaught e
after_save (reply_transient e) = uncaught e
after_save (reply_os e) = uncaught e
after_save (reply_config e) = uncaught e
after_save (reply_other e) = uncaught e
after_save (reply_request code e) = uncaught e

after_me : GraphReply → GraphReply → Verdict
unfolding after_save
after_me reply_ok save = after_save save
after_me (reply_auth e) save = as_invalid e
after_me (reply_request code e) save = if is_invalid_status code then as_invalid e else as_unknown e
after_me (reply_transient e) save = as_unknown e
after_me (reply_os e) save = as_unknown e
after_me (reply_config e) save = uncaught e
after_me (reply_other e) save = uncaught e

-- `_check_graph`: the client, or `AccountConfigError`
pub check_graph : Option Text → GraphReply → GraphReply → Verdict
unfolding after_me
check_graph (some e) me save = as_invalid e
check_graph none me save = after_me me save

pub record ProviderWorld : Type 0 where
  pub is_graph : Bool
  pub pool : MailEnd
  pub noop : MailEnd
  pub client : Option Text
  pub me : GraphReply
  pub save : GraphReply

pub check_account : ProviderWorld → Verdict
unfolding check_imap check_graph
check_account w = if w.is_graph then check_graph w.client w.me w.save else check_imap w.pool w.noop

-- The provider or the stored settings refused the credentials.
abbrev pub mail_refused : MailEnd → Bool
mail_refused (mail_auth _) = true
mail_refused (mail_config _) = true
mail_refused _ = false

abbrev pub mail_is_ok : MailEnd → Bool
mail_is_ok mail_ok = true
mail_is_ok _ = false

abbrev pub graph_refused : GraphReply → Bool
graph_refused (reply_auth _) = true
graph_refused (reply_request code _) = is_invalid_status code
graph_refused _ = false

abbrev pub gives_invalid : Verdict → Bool
gives_invalid (verdict c) = elim c.state [ invalid ↦ true | valid ↦ false | unknown ↦ false ]
gives_invalid (uncaught _) = false

after_noop-invalid : (n : MailEnd) → gives_invalid (after_noop n) ≡ mail_refused n
unfolding after_noop
after_noop-invalid n = ground arith

check_imap-invalid :
    (p n : MailEnd)
    → gives_invalid (check_imap p n) ≡ (mail_refused p || (mail_is_ok p && mail_refused n))
unfolding check_imap after_noop
check_imap-invalid p n = ground arith

check_graph-invalid :
    (c : Option Text) (me save : GraphReply)
    → gives_invalid (check_graph c me save) ≡ (is_some c || graph_refused me)
unfolding check_graph after_me after_save
check_graph-invalid c me save = ground arith

-- A check finds credentials invalid exactly if they were refused: for Graph if there are no settings,
-- the token is rejected or the status is 401 or 403, and for IMAP if opening the pool, or then the
-- NOOP, fails with a rejection or without settings. An outage never counts as a refusal.
pub check_account-invalid :
    (w : ProviderWorld)
    → gives_invalid (check_account w) ≡ (
        if w.is_graph
        then is_some w.client || graph_refused w.me
        else mail_refused w.pool || (mail_is_ok w.pool && mail_refused w.noop))
unfolding check_account
check_account-invalid w = elim (Bool-cases w.is_graph) [
  | inl e ↦ rw e (check_graph-invalid w.client w.me w.save)
  | inr e ↦ rw e (check_imap-invalid w.pool w.noop)
]
