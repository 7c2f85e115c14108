-- ===== src/Web/Terminals.antt =====
-- controller/internal/web/server.go: the handlers that the terminals' agents call.
use thin_pi.Prelude.{String, Option, none, some, Bytes, Result, ok, err}
use thin_pi.Db.{Db, Error, Device, Manifest}
use thin_pi.Store.Launch.{redeem_launch_ticket}
use thin_pi.Store.Maintenance.{redeem_maintenance_ticket}
use thin_pi.Store.Devices.{enrol_device, heartbeat}
use thin_pi.Store.Events.{session_event}
use thin_pi.Web.Bodies.{decode, EventBody}
use thin_pi.Web.Create.{Moment, Server}
use thin_pi.Web.Request.{Request, Answer, plain, failure, empty, json, enrolled_as, manifest_for}
use thin_pi.Web.Gate.{Handler}
use thin_pi.Web.Handlers.{bad_request}

unfoldable pub enrol_answer : Result Error (String × Device) × Db → Answer × Db
enrol_answer (ok (key, d), db) = (plain (json 201 (enrolled_as d key)), db)
enrol_answer (err e, db) = (plain (failure 401 "ENROLMENT_INVALID"), db)

unfoldable pub enrol_with : Server → Moment → Option (String × Bytes × Bytes) → Handler
unfolding enrol_answer
enrol_with s at none = bad_request
enrol_with s at (some (token, identifier, name)) = λ db.
    enrol_answer (enrol_device s.config token identifier name at.source at.now at.later at.token db)

-- enrol
unfoldable pub enrol : Server → Moment → Request → Handler
enrol s at r = enrol_with s at (decode s.readers.enrol_body r.body)

unfoldable pub manifest_answer : Result Error Manifest × Db → Answer × Db
manifest_answer (ok m, db) = (plain (json 200 (manifest_for m)), db)
manifest_answer (err e, db) = (plain (failure 403 "LAUNCH_TICKET_INVALID"), db)

unfoldable pub redeem_with : Server → Moment → Device → Option String → Handler
unfolding manifest_answer
redeem_with s at d none = bad_request
redeem_with s at d (some ticket) =
    λ db. manifest_answer (redeem_launch_ticket s.config ticket d.id at.source at.now at.later db)

-- redeem
unfoldable pub redeem : Server → Moment → Request → Device → Handler
redeem s at r d = redeem_with s at d (decode s.readers.ticket_body r.body)

unfoldable pub maintained : Result Error (Unit {0}) × Db → Answer × Db
maintained (ok u, db) = (plain (empty 204), db)
maintained (err e, db) = (plain (failure 403 "MAINTENANCE_TICKET_INVALID"), db)

unfoldable pub redeem_maintenance_with : Server → Moment → Device → Option String → Handler
unfolding maintained
redeem_maintenance_with s at d none = bad_request
redeem_maintenance_with s at d (some ticket) =
    λ db. maintained (redeem_maintenance_ticket s.config ticket d.id at.source at.now at.later db)

-- redeemMaintenance
unfoldable pub redeem_maintenance : Server → Moment → Request → Device → Handler
redeem_maintenance s at r d = redeem_maintenance_with s at d (decode s.readers.ticket_body r.body)

unfoldable pub beat_with : Moment → Device → Option (Option String) → Handler
beat_with at d none = bad_request
beat_with at d (some versions) =
    λ db. (plain (empty 204), heartbeat d at.source versions at.later at.last db)

-- heartbeat
unfoldable pub beat : Server → Moment → Request → Device → Handler
beat s at r d = beat_with at d (decode s.readers.heartbeat_body r.body)

unfoldable pub report_with : Moment → Device → Option EventBody → Handler
report_with at d none = bad_request
report_with at d (some q) = λ db. (
  plain (empty 204),
  (session_event d q.ticket_id q.connection_id q.event q.result at.source q.metadata at.now at.later
      db).1,
)

-- sessionEvent: what the store refuses is answered like what it records.
unfoldable pub report : Server → Moment → Request → Device → Handler
report s at r d = report_with at d (decode s.readers.event_body r.body)
