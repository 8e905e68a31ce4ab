-- ===== src/Notify/Delivery.antt =====
-- scanner/notify.py: what becomes of a notice.
use pms_scanner.Prelude.{
  ◌≡◌, refl, inl, inr, Bool, true, false, Option, none, some, Text, Bool-cases, if◌then◌else◌,
}
use pms_scanner.Machine.{is_empty}
use pms_scanner.Notify.{
  NotifySettings, is_set, is_configured, Mail, Notice, not_configured, sent, send_failed, send_to,
  subject_line, body_text, notify_quarantine,
}

module _ (smtp : Mail → Bool) (s : NotifySettings) (filename folder env machine reason : Text) where
  -- The mail about this file goes to the support address, and the notice says whether it arrived.
  pub record IsDelivery (n : Notice) : Type 0 where
    pub mail : Mail
    pub addressee : mail.to_addr ≡ s.support_addr
    pub subject : mail.subject ≡ subject_line machine env filename
    pub body : mail.body ≡ body_text filename folder machine env reason
    pub outcome : n ≡ (if smtp mail then sent mail else send_failed mail)

  -- How `notify_quarantine` can end.
  abbrev pub Reported : Bool → Notice → Type 0
  Reported true n = IsDelivery n
  Reported false n = n ≡ not_configured filename folder

  send_to-IsDelivery :
      (host from_addr : Option Text)
      → is_set host ≡ true
      → is_set from_addr ≡ true
      → IsDelivery (
          send_to smtp s host from_addr
            (subject_line machine env filename)
            (body_text filename folder machine env reason))
  send_to-IsDelivery none from_addr h k = cc
  send_to-IsDelivery (some host) none h k = cc
  send_to-IsDelivery (some host) (some from_addr) h k = record {
    mail = _;
    addressee = refl;
    subject = refl;
    body = refl;
    outcome = refl;
  }

  -- `notify_quarantine` never fails at its `assert`. Where the settings are complete it sends one
  -- mail about the file to the support address, and tells a delivery from a failure; where they are
  -- not, it only warns.
  pub notify_quarantine-Reported :
      Reported (is_configured s) (notify_quarantine smtp s filename folder env machine reason)
  unfolding notify_quarantine is_configured
  notify_quarantine-Reported = elim (Bool-cases (is_set s.smtp_host)) [
    | inl h ↦ elim (Bool-cases (is_set s.from_addr)) [
      | inl k ↦ elim (Bool-cases (is_empty s.support_addr)) [
        | inl e ↦ rw (h, k, e) refl
        | inr e ↦ rw (h, k, e) (send_to-IsDelivery s.smtp_host s.from_addr h k)
      ]
      | inr k ↦ rw (h, k) refl
    ]
    | inr h ↦ rw h refl
  ]
