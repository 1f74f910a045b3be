-- ===== src/Server/Notify.antt =====
-- One sample sent to one registration: the notification, the counters and the sender report.
use mathlib.Core.Path.{subst}
use ze_sense_server.Prelude.{
  ℕ, ◌+◌, ◌≤◌, ◌≡◌, ◌≢◌, refl, sym, ap, ◌∙◌, ◌==◌, ltb, leb, ◌||◌, ◌⊎◌, inl, inr, Bool, true, false,
  if◌then◌else◌, List, [], ◌∷◌, ◌++◌, some, arith,
}
use ze_sense_server.Prelude.Result.{Returns, Returns->>=, Returns-if, Returns-mono}
use ze_sense_server.Codes.{con, non, rtcp_sr_bandwidth_threshold}
use ze_sense_server.Encode.{Packet, be16}
use ze_sense_server.Server.State.{
  Registration, Message, Call, Libcoap, Server, registration_release, pdu_clear, remove_async,
  notify_confirmed, send, send_confirmed, test_send,
}
use ze_sense_server.Server.{
  update_message, count_sent, notify, report_due, send_report, form_sr_payload, after_notify,
  update_registration,
}
use ze_sense_server.Server.Report.{report_bytes, form_sr_payload_layout}

-- What holds of a registration between two responses: no more unconfirmed notifications in a row
-- than the limit, and no more octets since the last report than the threshold.
pub record IsPaced (limit : ℕ) (reg : Registration) : Type 0 where
  pub unconfirmed : reg.non_cnt ≤ limit
  pub reported : reg.last_sr_octcount ≤ reg.octcount
  pub recent : reg.octcount ≤ reg.last_sr_octcount + rtcp_sr_bandwidth_threshold

-- How often the calls release the registration of a ticket.
unfoldable pub released : List Call → ℕ → ℕ
released [] t = 0
released (registration_release _ ticket ∷ cs) t = (if ticket == t then 1 else 0) + released cs t
released (notify_confirmed _ _ _ ∷ cs) t = released cs t
released (send_confirmed _ _ ∷ cs) t = released cs t
released (send _ _ ∷ cs) t = released cs t
released (pdu_clear ∷ cs) t = released cs t
released (remove_async _ ∷ cs) t = released cs t
released (test_send _ _ ∷ cs) t = released cs t

module _ (c : Libcoap) (ticket : ℕ) where
  abbrev pub confirmed : Registration → Packet → Bool
  confirmed reg pk = leb c.obs_max_non reg.non_cnt || pk.conf == con

  -- The notification that the packet makes.
  abbrev pub notification : Registration → Packet → Call
  notification reg pk =
      if confirmed reg pk
      then notify_confirmed reg.subscriber (update_message c con reg pk) ticket
      else send reg.subscriber (update_message c non reg pk)

  -- What is sent after it, if a report is due.
  pub record Reported (sv : Server) (reg : Registration) (sv' : Server) (reg' : Registration)
      (calls : List Call) : Type 0 where
    pub message : Message
    pub sent :
        calls
        ≡ (if sv.first_sr_sent == 0 then test_send reg.subscriber message ∷ [] else [])
          ++ send_confirmed reg.subscriber message ∷ []
    pub message_lem : message ≡ record {
      kind = con;
      observe = some (be16 reg.notcnt);
      token = reg.token;
      payload = report_bytes c reg;
    }
    pub registration :
        reg' ≡ record reg { last_sr_octcount = reg.octcount; last_sr_packcount = reg.datapackcount }
    pub server : sv' ≡ record sv { first_sr_sent = 1; sr_sent_counter = sv.sr_sent_counter + 1 }

  send_report-Reported :
      (sv : Server) (reg : Registration)
      → c.payload_allocated ≡ true
      → c.data_allocated ≡ true
      → Returns (λ (sv', reg', calls). Reported sv reg sv' reg' calls) (send_report c ticket sv reg)
  unfolding send_report
  send_report-Reported sv reg m d =
      Returns->>= (λ o. o ≡ some (report_bytes c reg)) _ (form_sr_payload c reg) _
        (subst (Returns (λ o. o ≡ some (report_bytes c reg)))
          (sym (form_sr_payload_layout c reg m d)) refl)
        (λ o e. rw e (record {
          message = _;
          sent = refl;
          message_lem = refl;
          registration = refl;
          server = refl;
        }))

  -- What has become of the registration and of the thread's variables.
  pub record Notified (sv : Server) (reg : Registration) (pk : Packet) (sv' : Server)
      (reg' : Registration) (calls : List Call) : Type 0 where
    pub reports : List Call
    pub first : calls ≡ notification reg pk ∷ reports
    pub fail_cnt : reg'.fail_cnt ≡ reg.fail_cnt
    pub notcnt : reg'.notcnt ≡ reg.notcnt + 1
    pub datapackcount : reg'.datapackcount ≡ reg.datapackcount + 1
    pub octcount : reg'.octcount ≡ reg.octcount + pk.length
    pub non_cnt : reg'.non_cnt ≡ (if confirmed reg pk then 0 else reg.non_cnt + 1)
    pub ntptwin : reg'.ntptwin ≡ pk.ntpts
    pub rtptwin : reg'.rtptwin ≡ pk.rtpts
    pub refs : reg'.refs ≡ (if confirmed reg pk then reg.refs + 1 else reg.refs)
    pub registrations : sv'.registrations ≡ sv.registrations
    pub report :
        let due =
          ltb (reg.last_sr_octcount + rtcp_sr_bandwidth_threshold) (reg.octcount + pk.length)
          || reg.datapackcount + 1 == 1 in
        ((due ≡ true)
          × (sv'.sr_sent_counter ≡ sv.sr_sent_counter + 1)
          × (reg'.last_sr_octcount ≡ reg'.octcount)
          × (reports ≢ []))
        ⊎ ((due ≡ false)
            × (sv' ≡ sv)
            × (reg'.last_sr_octcount ≡ reg.last_sr_octcount)
            × (reports ≡ []))
    pub kept : (t : ℕ) → released calls t ≡ 0
    pub paced : IsPaced c.obs_max_non reg → IsPaced c.obs_max_non reg'

  -- The registration once the notification is out.
  abbrev notified : Registration → Packet → Registration
  notified reg pk = record reg {
    ntptwin = pk.ntpts;
    rtptwin = pk.rtpts;
    non_cnt = if confirmed reg pk then 0 else reg.non_cnt + 1;
    refs = if confirmed reg pk then reg.refs + 1 else reg.refs;
  }

  notify_lem :
      (reg : Registration) (pk : Packet)
      → (pk.conf ≡ con) ⊎ (pk.conf ≡ non)
      → notify c ticket (record reg { ntptwin = pk.ntpts; rtptwin = pk.rtpts }) pk
        ≡ (true, notified reg pk, notification reg pk ∷ [])
  unfolding notify
  notify_lem reg pk h = ground arith

  sent_calls : (b : Bool) (x y : Call) → (if b then x ∷ [] else []) ++ y ∷ [] ≢ []
  sent_calls true x y e = cc
  sent_calls false x y e = cc

  abbrev AfterNotify : Server → Registration → Packet → Server × Registration × List Call → Type 0
  AfterNotify sv reg pk (sv', reg', reports) =
      Notified sv reg pk sv' reg' (notification reg pk ∷ reports)

  abbrev AfterReport : Server → Registration → Server × Registration × List Call → Type 0
  AfterReport sv reg (sv', reg', calls) = Reported sv reg sv' reg' calls

  released_nil : (t : ℕ) → released [] t ≡ 0
  unfolding released
  released_nil t = refl

  released_report :
      (b : Bool) (peer : ℕ) (m : Message) (t : ℕ)
      → released ((if b then test_send peer m ∷ [] else []) ++ send_confirmed peer m ∷ []) t ≡ 0
  unfolding released
  released_report true peer m t = refl
  released_report false peer m t = refl

  released-notification :
      (reg : Registration) (pk : Packet) (cs : List Call) (t : ℕ)
      → released (notification reg pk ∷ cs) t ≡ released cs t
  unfolding released
  released-notification reg pk cs t = ground arith

  -- The notification and a report.
  followed-Notified :
      (sv : Server) (reg : Registration) (pk : Packet) (sv' : Server) (reg' : Registration)
      (reports : List Call)
      → report_due c (count_sent c (notified reg pk) pk) ≡ true
      → Reported sv (count_sent c (notified reg pk) pk) sv' reg' reports
      → Notified sv reg pk sv' reg' (notification reg pk ∷ reports)
  unfolding report_due
  followed-Notified sv reg pk sv' reg' reports due r =
      let e = r.registration in
      record {
        reports = reports;
        first = refl;
        fail_cnt = ap (λ x. x.fail_cnt) e;
        notcnt = ap (λ x. x.notcnt) e;
        datapackcount = ap (λ x. x.datapackcount) e;
        octcount = ap (λ x. x.octcount) e;
        non_cnt = ap (λ x. x.non_cnt) e;
        ntptwin = ap (λ x. x.ntptwin) e;
        rtptwin = ap (λ x. x.rtptwin) e;
        refs = ap (λ x. x.refs) e;
        registrations = ap (λ x. x.registrations) r.server;
        kept = λ t.
            released-notification reg pk reports t
            ∙ ap (λ l. released l t) r.sent
            ∙ released_report (sv.first_sr_sent == 0) _ _ t;
        report = inl (
          due,
          ap (λ x. x.sr_sent_counter) r.server,
          ap (λ x. x.last_sr_octcount) e ∙ sym (ap (λ x. x.octcount) e),
          λ none_sent. sent_calls (sv.first_sr_sent == 0) _ _ (sym r.sent ∙ none_sent),
        );
        paced = λ h. subst (IsPaced c.obs_max_non) (sym e) (record {
          unconfirmed = ground (arith, h.unconfirmed);
          reported = omega arith;
          recent = omega arith;
        });
      }

  -- The notification alone.
  alone-Notified :
      (sv : Server) (reg : Registration) (pk : Packet)
      → report_due c (count_sent c (notified reg pk) pk) ≡ false
      → Notified sv reg pk sv (count_sent c (notified reg pk) pk) (notification reg pk ∷ [])
  unfolding report_due
  alone-Notified sv reg pk not_due = record {
    reports = [];
    first = refl;
    fail_cnt = refl;
    notcnt = refl;
    datapackcount = refl;
    octcount = refl;
    non_cnt = refl;
    ntptwin = refl;
    rtptwin = refl;
    refs = refl;
    registrations = refl;
    kept = λ t. released-notification reg pk [] t ∙ released_nil t;
    report = inr (not_due, refl, refl, refl);
    paced = λ h. record {
      unconfirmed = ground (arith, h.unconfirmed);
      reported = omega (arith, h.reported);
      recent = ground (arith, h.recent);
    };
  }

  after_notify-Notified :
      (sv : Server) (reg : Registration) (pk : Packet)
      → c.payload_allocated ≡ true
      → c.data_allocated ≡ true
      → Returns (AfterNotify sv reg pk) (after_notify c ticket sv (notified reg pk) pk)
  unfolding after_notify
  after_notify-Notified sv reg pk m d =
      let reg1 = count_sent c (notified reg pk) pk in
      Returns-if (AfterNotify sv reg pk) (report_due c reg1) _ _
        (λ due.
          Returns-mono (AfterReport sv reg1) (AfterNotify sv reg pk) (send_report c ticket sv reg1)
            (send_report-Reported sv reg1 m d)
            (λ (sv', reg', reports) r. followed-Notified sv reg pk sv' reg' reports due r))
        (λ not_due. alone-Notified sv reg pk not_due)

  abbrev pub AfterUpdate :
      Server → Registration → Packet → Server × Registration × List Call → Type 0
  AfterUpdate sv reg pk (sv', reg', calls) = Notified sv reg pk sv' reg' calls

  pub update_registration-Notified :
      (sv : Server) (reg : Registration) (pk : Packet)
      → c.payload_allocated ≡ true
      → c.data_allocated ≡ true
      → (pk.conf ≡ con) ⊎ (pk.conf ≡ non)
      → Returns (AfterUpdate sv reg pk) (update_registration c ticket sv reg pk)
  unfolding update_registration
  update_registration-Notified sv reg pk m d h = rw (notify_lem reg pk h) (
      Returns->>= (AfterNotify sv reg pk) (AfterUpdate sv reg pk)
        (after_notify c ticket sv (notified reg pk) pk) _ (after_notify-Notified sv reg pk m d)
        (λ (sv', reg', reports) k. k))
