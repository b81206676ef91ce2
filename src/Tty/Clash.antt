-- ===== src/Tty/Clash.antt =====
-- tty.c: `ttyCreate` where something is at the path of the link already.
use yar.Base.{ℕ, ◌≡◌, Bool, true, false, some, none, ◌∷◌}
use yar.Kernel.{Str, unlink_call, access_call}
use yar.State.{Tty, EvntDesc, Sys}
use yar.Monad.{ok}
use yar.Tty.{
  zeroed_tty, tty_create, link_clash, path_exists, tty_create_failed, tty_cleanup, close_if_open,
  unlink_link,
}

-- If something is at the path of the link, a tty that is not yet open, without extra links, is not
-- created; and what is at that path, which yar did not make, is unlinked.
pub tty_create-unlink :
    (this : Tty) (c : ℕ) (cs : Str) (ed self ned : EvntDesc) (raw : Bool) (s : Sys)
    → this.link ≡ some (c ∷ cs)
    → this.extralink1_src ≡ none
    → this.extralink2_src ≡ none
    → this.dfd ≡ none
    → this.sfd ≡ none
    → this.ifd ≡ none
    → s.env.access s.calls (c ∷ cs) ≡ true
    → tty_create this ed self ned raw s
      ≡ ok
          (false, record zeroed_tty { dfd = none; sfd = none; iwd = none; ifd = none })
          (record s { calls = unlink_call (c ∷ cs) ∷ access_call (c ∷ cs) ∷ s.calls })
unfolding tty_create link_clash path_exists tty_create_failed tty_cleanup close_if_open unlink_link
tty_create-unlink this c cs ed self ned raw s link e1 e2 dfd sfd ifd there =
    simp (link, e1, e2, dfd, sfd, ifd, there)
