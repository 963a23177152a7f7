-- ===== src/Component/Answer.antt =====
-- include/gran/common.h: the result codes, as the senders of packets tell them apart.
use gran.Prelude.{◌≡◌, false, refl}
use gran.Component.{
  Stat, ok, done, ebus, ebusy, emem, enomem, eexists, enosuch, esize, is_ok, is_ebusy,
}

-- What a component that is sent to answers: it takes the packet, it is busy, or it fails.
pub data Answer : Stat → Type 0 where
  takes : Answer ok
  refuses : Answer ebusy
  fails : {ret : Stat} → is_ok ret ≡ false → is_ebusy ret ≡ false → Answer ret

pub every-Answer : (ret : Stat) → Answer ret
every-Answer ok = takes
every-Answer done = fails refl refl
every-Answer ebus = fails refl refl
every-Answer ebusy = refuses
every-Answer emem = fails refl refl
every-Answer enomem = fails refl refl
every-Answer eexists = fails refl refl
every-Answer enosuch = fails refl refl
every-Answer esize = fails refl refl
