-- ===== src/Io/Tests.antt =====
-- The register of devices at concrete inputs, and the theorems at them.
use dalek.Base.{ℕ, ◌≡◌, refl, none, some, List, [], ◌∷◌, arith}
use dalek.Base.Int.{pos, negsuc}
use dalek.Errno.{efault, enosys}
use dalek.Strings.Text.{held}
use dalek.Io.{
  IoDevice, zeroed, io_register_device, find_by_name, io_seek, io_read, io_write, io_ioctl,
  io_device_get_by_name,
}
use dalek.Io.Register.{Lookup, io_register_device-Lookup}

-- Two names, and a state of one number.
abbrev fd : List ℕ
fd = b'f' ∷ b'd' ∷ b'0' ∷ []

abbrev kb : List ℕ
kb = b'k' ∷ b'b' ∷ []

io_register_device-Lookup_example :
    (dev : IoDevice ℕ) × (io_register_device [] (held fd []) (held kb []) 9 ≡ some (dev ∷ []))
    × (dev.private_data ≡ 9)
    × Lookup dev [] fd kb []
io_register_device-Lookup_example =
    io_register_device-Lookup [] fd [] kb [] kb [] 9 (omega arith) (omega arith) (omega arith)
      (omega arith) (omega arith)

null_read : io_read {State = ℕ} none (fd, 3) (3, 0) ≡ (negsuc 0, (fd, (3, efault)))
unfolding io_read
null_read = refl

no_method : io_write (some (zeroed {State = ℕ} 0)) (fd, 3) (3, 0) ≡ (negsuc 0, (3, enosys))
unfolding io_write
no_method = refl

null_seek : io_seek {State = ℕ} none (pos 0, 0) (3, 0) ≡ (negsuc 0, (3, efault))
unfolding io_seek
null_seek = refl

null_ioctl : io_ioctl {State = ℕ} none ([], []) (3, 0) ≡ (negsuc 0, (3, efault))
unfolding io_ioctl
null_ioctl = refl

nothing_registered : io_device_get_by_name {State = ℕ} [] fd 0 ≡ some (none, 2)
unfolding io_device_get_by_name find_by_name
nothing_registered = refl
