-- ===== src/Evnts.antt =====
-- The event bits of epoll that the handlers test, and the results of a handler (event.h).
use yar.Base.{Bool, ◌||◌, not}

pub record Evnts : Type 0 where
  pub ein : Bool
  pub hup : Bool
  pub rdhup : Bool
  pub err : Bool
  pub other : Bool

abbrev pub hup_or_worse : Evnts → Bool
hup_or_worse e = e.hup || (e.rdhup || (e.err || e.other))

-- `evnts == 0` once EPOLLIN is cleared.
abbrev pub none_left : Evnts → Bool
none_left e = not (hup_or_worse e)

-- `evnthdlrrc_t`
pub data EvntRc : Type 0 where
  hdlr_success hdlr_failed hdlr_exit_loop : EvntRc
