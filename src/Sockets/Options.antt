-- ===== src/Sockets/Options.antt =====
-- The setters of LuxPolaris/src/Sockets.cc: what they do to the options of a socket, and what they
-- log about it. Whether setsockopt(2) succeeds is an argument.
use lux_polaris.Prelude.{◌≡◌, refl, Bool, true, false, not, ◌&&◌, ◌||◌, if◌then◌else◌, arith}

pub record Options : Type 0 where
  pub tcp_nodelay : Bool
  pub so_reuseaddr : Bool
  pub so_reuseport : Bool
  pub so_keepalive : Bool

-- LOG_INFO that the option is open or closed, and LOG_ERROR or LOG_SYSERR that the call failed.
pub data Told : Type 0 where
  done : Bool → Told
  failed : Told

abbrev pub set_tcp_no_delay : Bool → Bool → Options → Options × Told
set_tcp_no_delay on succeeds o =
    if succeeds then (record o { tcp_nodelay = on }, done on) else (o, failed)

abbrev pub set_reuse_addr : Bool → Bool → Options → Options × Told
set_reuse_addr on succeeds o =
    if succeeds then (record o { so_reuseaddr = on }, done on) else (o, failed)

-- With SO_REUSEPORT defined; a failure to close it is not told.
abbrev pub set_reuse_port : Bool → Bool → Options → Options × Told
set_reuse_port on succeeds o =
    let o' : Options = if succeeds then record o { so_reuseport = on } else o in
    (o', if not succeeds && on then failed else done on)

abbrev pub set_keep_alive : Bool → Bool → Options → Options × Told
set_keep_alive on succeeds o =
    if succeeds then (record o { so_keepalive = on }, done on) else (o, failed)

-- What was told about an option is that the call failed, or what the option now is.
abbrev Truly : Bool → Told → Type 0
Truly now failed = Unit {0}
Truly now (done on) = now ≡ on

-- The setters of TCP_NODELAY, SO_REUSEADDR and SO_KEEPALIVE, and that of SO_REUSEPORT where it opens
-- the option or the call succeeds, log that an option is open or closed only if it is.
pub setters-Truly :
    (on succeeds : Bool) (o : Options)
    → Truly (set_tcp_no_delay on succeeds o).0.tcp_nodelay (set_tcp_no_delay on succeeds o).1
      × Truly (set_reuse_addr on succeeds o).0.so_reuseaddr (set_reuse_addr on succeeds o).1
      × Truly (set_keep_alive on succeeds o).0.so_keepalive (set_keep_alive on succeeds o).1
      × ((on || succeeds) ≡ true
          → Truly (set_reuse_port on succeeds o).0.so_reuseport (set_reuse_port on succeeds o).1)
setters-Truly true true o = (refl, refl, refl, λ h. refl)
setters-Truly true false o = (tt, tt, tt, λ h. tt)
setters-Truly false true o = (refl, refl, refl, λ h. refl)
setters-Truly false false o = (tt, tt, tt, λ h. absurd (ground (arith, h)))

-- A failure to close SO_REUSEPORT is logged as a success.
pub set_reuse_port_untrue :
    (o : Options)
    → o.so_reuseport ≡ true
    → ¬ Truly (set_reuse_port false false o).0.so_reuseport (set_reuse_port false false o).1
set_reuse_port_untrue o h e = ground (arith, h, e)
