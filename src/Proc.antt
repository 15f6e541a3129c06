-- ===== src/Proc.antt =====
-- The process table of include/sys/proc.h, the messages of include/type.h, and the kernel's global
-- variables that the scheduler and the message passing of kernel/proc.c read and write.
--
-- Pointers into `proc_table` are slot numbers, and `proc2pid` is the identity. A `MESSAGE *` is an
-- address, 0 for NULL. `flags` is the int of include/sys/const.h with a Boolean for each bit.
use lwos.Common.{ℕ, ◌≡◌, arith, Bool, true, false, not, ◌&&◌, ◌||◌, Option, ◌==◌, if◌then◌else◌}
use lwos.Common.Int.{ℤ, pos, negsuc}
use lwos.Protect.{Descriptor}

-- `NR_TASKS + NR_PROCS`, the slots that the loops over the table visit.
abbrev pub nr_slots : ℕ
nr_slots = 37

-- `NR_TASKS + NR_NATIVE_PROCS`.
abbrev pub nr_native : ℕ
nr_native = 9

abbrev pub any : ℤ
any = pos 47

abbrev pub no_task : ℤ
no_task = pos 57

abbrev pub interrupt : ℤ
interrupt = negsuc 9

-- `SENDING`, `RECEIVING`, `WAITING`, `HANGING`, `FREE_SLOT`.
pub record Flags : Type 0 where
  pub sending : Bool
  pub receiving : Bool
  pub waiting : Bool
  pub hanging : Bool
  pub free_slot : Bool

abbrev pub flags : Bool → Bool → Bool → Bool → Bool → Flags
flags s r w h f = record { sending = s; receiving = r; waiting = w; hanging = h; free_slot = f }

-- The word of flags equals 0.
abbrev pub is_clear : Flags → Bool
is_clear f = not (f.sending || f.receiving || f.waiting || f.hanging || f.free_slot)

-- It equals `SENDING`, `RECEIVING`, `HANGING`.
abbrev pub is_sending : Flags → Bool
is_sending f = f.sending && not (f.receiving || f.waiting || f.hanging || f.free_slot)

abbrev pub is_receiving : Flags → Bool
is_receiving f = f.receiving && not (f.sending || f.waiting || f.hanging || f.free_slot)

abbrev pub is_hanging : Flags → Bool
is_hanging f = f.hanging && not (f.sending || f.receiving || f.waiting || f.free_slot)

-- `MESSAGE`: the union by its widest member, `mess3`, which all macros name.
pub record Message : Type 0 where
  pub source : ℤ
  pub type : ℕ
  pub m3i1 : ℤ
  pub m3i2 : ℤ
  pub m3i3 : ℤ
  pub m3i4 : ℤ
  pub m3l1 : ℕ
  pub m3l2 : ℕ
  pub m3p1 : ℕ
  pub m3p2 : ℕ

-- What `memset(msg, 0, sizeof(MESSAGE))` leaves.
abbrev pub zero_message : Message
zero_message = record {
  source = pos 0;
  type = 0;
  m3i1 = pos 0;
  m3i2 = pos 0;
  m3i3 = pos 0;
  m3i4 = pos 0;
  m3l1 = 0;
  m3l2 = 0;
  m3p1 = 0;
  m3p2 = 0;
}

-- `PROCESS`, but for the saved registers, `ldt_sel`, `pid` and `name`, which nothing here reads.
pub record Process : Type 0 where
  pub ldt_code : Descriptor
  pub ldt_data : Descriptor
  pub ticks : ℕ
  pub priority : ℕ
  pub flags : Flags
  pub msg : ℕ
  pub recvfrom : ℤ
  pub sendto : ℤ
  pub has_int_msg : Bool
  pub sending_queue : Option ℕ
  pub next_sending : Option ℕ
  pub filp : ℕ → Option ℕ
  pub p_parent : ℕ
  pub exit_status : ℤ

-- The kernel's memory as these functions see it. `mem` holds the message at each linear address;
-- buffers are taken to overlap only if they are the same. `before` is what a read of
-- `proc_table[INTERRUPT]` finds in front of the table.
pub record Kernel : Type 0 where
  pub procs : ℕ → Process
  pub before : Process
  pub mem : ℕ → Message
  pub ready : ℕ
  pub ticks : ℕ
  pub k_reenter : ℕ
  pub key_pressed : Bool

-- A table with another value at one index.
abbrev pub update {ℓ} : {V : Type ℓ} (table : ℕ → V) (at : ℕ) (v : V) (i : ℕ) → V
update table at v i = if at == i then v else table i

-- `proc_table[i] = p`.
abbrev pub put_proc : ℕ → Process → Kernel → Kernel
put_proc i p k = record k { procs = update k.procs i p }

-- `phys_copy(dst, src, sizeof(MESSAGE))` on messages.
abbrev pub put_message : ℕ → Message → Kernel → Kernel
put_message la m k = record k { mem = update k.mem la m }

abbrev pub eq_ℤ : ℤ → ℤ → Bool
eq_ℤ (pos a) (pos b) = a == b
eq_ℤ (negsuc a) (negsuc b) = a == b
eq_ℤ (pos a) (negsuc b) = false
eq_ℤ (negsuc a) (pos b) = false

pub eq_ℤ→≡ : (a b : ℤ) → eq_ℤ a b ≡ true → a ≡ b
eq_ℤ→≡ (pos a) (pos b) h = ground arith
eq_ℤ→≡ (negsuc a) (negsuc b) h = ground arith
eq_ℤ→≡ (pos a) (negsuc b) h = cc
eq_ℤ→≡ (negsuc a) (pos b) h = cc

pub eq_ℤ_refl : (a : ℤ) → eq_ℤ a a ≡ true
eq_ℤ_refl (pos a) = ground arith
eq_ℤ_refl (negsuc a) = ground arith
