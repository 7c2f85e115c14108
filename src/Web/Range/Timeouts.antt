-- ===== src/Web/Range/Timeouts.antt =====
-- controller/internal/web/server.go and controller/internal/app/store.go: the idle timeouts that the
-- administrator's requests can lead to.
use thin_pi.Prelude.{ℕ, ◌*◌, ◌≤◌, ◌≡◌, true, false, not, List, [], ◌∷◌, arith, any, All}
use thin_pi.Stamp.{minute}
use thin_pi.Policy.{AccessPolicy}
use thin_pi.Db.{Db}
use thin_pi.Store.Access.{user_idle_timeout}
use thin_pi.Store.Access.Idle.{user_idle_timeout_bounds}
use thin_pi.Web.Create.{Moment, Server}
use thin_pi.Web.Request.{Request}
use thin_pi.Web.Serve.{serve, serve_all}
use thin_pi.Web.Update.{policy_in_range}
use thin_pi.Web.Range.{in_range}
use thin_pi.Web.Range.Requests.{serve-in_range}

serve_all-in_range :
    (s : Server) (rs : List (Moment × Request)) (db : Db)
    → in_range db ≡ true
    → in_range (serve_all s rs db) ≡ true
unfolding serve_all
serve_all-in_range s [] db h = h
serve_all-in_range s ((at, r) ∷ rest) db h =
    serve_all-in_range s rest (serve s at r db).1 (serve-in_range s at r db h)

bounded_minutes :
    (ps : List AccessPolicy)
    → any (λ p. not (policy_in_range p)) ps ≡ false
    → All (λ p. (1 ≤ p.idle_logout_minutes) × (p.idle_logout_minutes ≤ 1440)) ps
unfolding any policy_in_range
bounded_minutes [] h = tt
bounded_minutes (p ∷ ps) h = ((ground arith, ground arith), bounded_minutes ps (ground arith))

in_range-minutes :
    (db : Db)
    → in_range db ≡ true
    → All (λ p. (1 ≤ p.idle_logout_minutes) × (p.idle_logout_minutes ≤ 1440)) db.policies
unfolding in_range
in_range-minutes db h = bounded_minutes db.policies (ground arith)

-- Whatever requests have been served since the policies were in range, every user's idle timeout lies
-- between one minute and one day.
pub serve_all-timeout :
    (s : Server) (rs : List (Moment × Request)) (db : Db) (user : ℕ)
    → in_range db ≡ true
    → (minute ≤ user_idle_timeout s.config (serve_all s rs db) user)
      × (user_idle_timeout s.config (serve_all s rs db) user ≤ 1440 * minute)
serve_all-timeout s rs db user h =
    user_idle_timeout_bounds s.config (serve_all s rs db) user
      (in_range-minutes (serve_all s rs db) (serve_all-in_range s rs db h))
