-- ===== src/Notify.antt =====
-- scanner/notify.py, with `NotifySettings` of scanner/config.py: alerts about quarantined files.
pub mod Delivery
use pms_scanner.Prelude.{
  ℕ, Bool, false, ◌&&◌, not, Option, none, some, [], ◌∷◌, ◌++◌, Text, codes, if◌then◌else◌,
}
use pms_scanner.Machine.{is_empty}

pub record NotifySettings : Type 0 where
  pub smtp_host : Option Text
  pub smtp_port : ℕ
  pub smtp_username : Option Text
  pub smtp_password : Option Text
  pub use_tls : Bool
  pub from_addr : Option Text
  pub support_addr : Text
  pub timeout_seconds : ℕ

-- The truth of an optional text: `None` and `""` are false.
abbrev pub is_set : Option Text → Bool
is_set none = false
is_set (some s) = not (is_empty s)

-- `NotifySettings.is_configured`
unfoldable pub is_configured : NotifySettings → Bool
is_configured s = is_set s.smtp_host && is_set s.from_addr && not (is_empty s.support_addr)

pub record Mail : Type 0 where
  pub from_addr : Text
  pub to_addr : Text
  pub subject : Text
  pub body : Text
  -- The user name and the password, if the session logs in.
  pub login : Option (Text × Text)
  pub tls : Bool

-- What a call of `notify_quarantine` came to: a warning, a delivery, or a logged error.
pub data Notice : Type 0 where
  not_configured : Text → Text → Notice
  sent : Mail → Notice
  send_failed : Mail → Notice
  assertion_failed : Notice

abbrev pub subject_line : Text → Text → Text → Text
subject_line machine env filename =
    codes "[pms-scanner] Quarantined scan on "
    ++ (machine ++ (codes "/" ++ (env ++ (codes ": " ++ filename))))

abbrev pub body_text : Text → Text → Text → Text → Text → Text
body_text filename folder machine env reason =
    codes "pms-scanner could not upload a scan and moved it to a quarantine "
    ++ (codes "folder for manual action."
        ++ (10 ∷ 10 ∷ codes "File:        "
            ++ (filename
                ++ (10 ∷ codes "Folder:      "
                    ++ (folder
                        ++ (10 ∷ codes "Machine:     "
                            ++ (machine
                                ++ (10 ∷ codes "Environment: "
                                    ++ (env
                                        ++ (10 ∷ codes "Reason:      "
                                            ++ (reason
                                                ++ (10
                                                      ∷ 10
                                                      ∷ codes
                                                          "This file will NOT be retried automatically. Please review it, "
                                                    ++ (codes "then re-submit or discard it."
                                                        ++ 10 ∷ [])))))))))))))

abbrev pub credentials : Option Text → Option Text → Option (Text × Text)
credentials none password = none
credentials (some user) none = none
credentials (some user) (some password) = if is_empty user then none else some (user, password)

-- `_send`: `none` is the failure of its `assert`. `smtp` says whether the server takes the mail.
abbrev pub deliver : (Mail → Bool) → Mail → Notice
deliver smtp mail = if smtp mail then sent mail else send_failed mail

abbrev pub send_to :
    (Mail → Bool) → NotifySettings → Option Text → Option Text → Text → Text → Notice
send_to smtp s (some host) (some from_addr) subject body = deliver smtp (record {
  from_addr = from_addr;
  to_addr = s.support_addr;
  subject = subject;
  body = body;
  login = credentials s.smtp_username s.smtp_password;
  tls = s.use_tls;
})
send_to smtp s _ _ subject body = assertion_failed

-- `Notifier.notify_quarantine`
unfoldable pub notify_quarantine :
    (Mail → Bool) → NotifySettings → Text → Text → Text → Text → Text → Notice
unfolding is_configured
notify_quarantine smtp s filename folder env machine reason =
    if is_configured s
    then send_to smtp s s.smtp_host s.from_addr (subject_line machine env filename)
        (body_text filename folder machine env reason)
    else not_configured filename folder
