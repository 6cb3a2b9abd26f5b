-- ===== src/Exception.antt =====
-- kernel/arch/aarch64/exception.cpp: the handlers that the vector table calls.
--
-- The handlers that end in an endless loop are modelled up to it, by the texts that they have printed.
pub mod Faults
pub mod Lines
pub mod Report
use planetoid_os.Base.{
  ℕ, ◌/◌, ◌%◌, ◌^◌, Bool, not, Option, none, some, List, [], ◌∷◌, ◌++◌, bit_and, ◌==◌,
  if◌then◌else◌, ◌>>◌,
}
use planetoid_os.Preempt.{ExceptionContext}
use planetoid_os.Interrupts.{Handlers, dispatch_interrupt}
use planetoid_os.Timer.{Kernel}
use planetoid_os.Gic.{end_interrupt}
use planetoid_os.Log.{Text, Buffer, Argument, word, codes, error}

unfoldable pub get_exception_class : (esr : ℕ) → ℕ
get_exception_class esr = bit_and (esr >> 26) 0x3F

-- The cases of the `switch`, in its order.
abbrev pub fault_names : List (ℕ × Text)
fault_names =
    (0x00, codes "Address size fault at level 0")
    ∷ (0x01, codes "Address size fault at level 1")
    ∷ (0x02, codes "Address size fault at level 2")
    ∷ (0x03, codes "Address size fault at level 3")
    ∷ (0x04, codes "Translation fault at level 0")
    ∷ (0x05, codes "Translation fault at level 1")
    ∷ (0x06, codes "Translation fault at level 2")
    ∷ (0x07, codes "Translation fault at level 3")
    ∷ (0x09, codes "Access flag fault at level 1")
    ∷ (0x0A, codes "Access flag fault at level 2")
    ∷ (0x0B, codes "Access flag fault at level 3")
    ∷ (0x0D, codes "Permission fault at level 1")
    ∷ (0x0E, codes "Permission fault at level 2")
    ∷ (0x0F, codes "Permission fault at level 3")
    ∷ (0x10, codes "Sync external abort")
    ∷ (0x14, codes "Sync external abort during translation table walk at level 0")
    ∷ (0x15, codes "Sync external abort during translation table walk at level 1")
    ∷ (0x16, codes "Sync external abort during translation table walk at level 2")
    ∷ (0x17, codes "Sync external abort during translation table walk at level 3")
    ∷ (0x18, codes "Sync parity fault")
    ∷ (0x1C, codes "Sync parity fault during translation table walk at level 0")
    ∷ (0x1D, codes "Sync parity fault during translation table walk at level 1")
    ∷ (0x1E, codes "Sync parity fault during translation table walk at level 2")
    ∷ (0x1F, codes "Sync parity fault during translation table walk at level 3")
    ∷ (0x21, codes "Alignment fault")
    ∷ (0x22, codes "Debug fault")
    ∷ (0x30, codes "TLB Conflict fault")
    ∷ (0x31, codes "Atomic fault")
    ∷ []

unfoldable pub name_of : (fsc : ℕ) → List (ℕ × Text) → Text
name_of fsc [] = codes "Unknown data abort fault"
name_of fsc ((code, name) ∷ names) = if fsc == code then name else name_of fsc names

unfoldable pub decode_abort_error : (esr : ℕ) → Text
decode_abort_error esr = name_of (bit_and esr 0x3F) fault_names

-- A call of `Log::error`: the format and its arguments.
abbrev pub Call : Type 0
Call = Text × List Argument

abbrev pub access_calls : (esr : ℕ) → List Call
access_calls esr =
    if not (bit_and esr (2 ^ 6) == 0)
    then (codes "Fault was a write operation", []) ∷ []
    else (codes "Fault was a read operation", []) ∷ []

-- The calls of the `switch` of `sync_exception_handler`.
unfoldable pub cause_calls : (esr : ℕ) → List Call
cause_calls esr =
    let exception_class = get_exception_class esr in
    if exception_class == 0x00
    then (codes "Unknown or undefined instruction", []) ∷ []
    else if exception_class == 0x15
    then (codes "SVC Instruction", []) ∷ []
    else if exception_class == 0x20
    then (codes "Instruction abort from lower exception level", [])
      ∷ (decode_abort_error esr, [])
      ∷ []
    else if exception_class == 0x21
    then (codes "Instruction abort from current exception level", [])
      ∷ (decode_abort_error esr, [])
      ∷ []
    else if exception_class == 0x24
    then (codes "Data abort from lower exception level", [])
      ∷ (decode_abort_error esr, [])
      ∷ access_calls esr
    else if exception_class == 0x25
    then (codes "Data abort from current exception level", [])
      ∷ (decode_abort_error esr, [])
      ∷ access_calls esr
    else (codes "Unknown Error", []) ∷ []

abbrev pub register_format : Text
register_format = codes "    %#08x"

unfoldable pub sync_calls : ExceptionContext → List Call
sync_calls context =
    (codes "Sync exception received!", [])
    ∷ (codes "ELR: ", [])
    ∷ (register_format, word context.elr ∷ [])
    ∷ (codes "FAR: ", [])
    ∷ (register_format, word context.far ∷ [])
    ∷ (codes "ESR: ", [])
    ∷ (register_format, word context.esr ∷ [])
    ∷ (codes "SP: ", [])
    ∷ (register_format, word context.sp ∷ [])
    ∷ cause_calls context.esr

-- What a sequence of calls prints.
unfoldable pub print_all : Buffer → List Call → Option (List Text)
print_all buffer [] = some []
print_all buffer ((fmt, args) ∷ calls) = elim (error buffer fmt args) [
  | none ↦ none
  | some puts ↦ elim (print_all buffer calls) [ none ↦ none | some more ↦ some (puts ++ more) ]
]

unfoldable pub sync_exception_handler : Buffer → ExceptionContext → Option (List Text)
sync_exception_handler buffer context = print_all buffer (sync_calls context)

unfoldable pub fiq_exception_handler : Buffer → Option (List Text)
fiq_exception_handler buffer = print_all buffer ((codes "FIQ Exception", []) ∷ [])

unfoldable pub serror_exception_handler : Buffer → Option (List Text)
serror_exception_handler buffer = print_all buffer ((codes "SError Exception", []) ∷ [])

-- `acknowledged` is what the controller's acknowledge register reads.
unfoldable pub irq_exception_handler :
    (pi5 : Bool) (acknowledged : ℕ) → Handlers (Option Kernel) → Kernel → Option Kernel
irq_exception_handler pi5 acknowledged handlers k =
    elim (dispatch_interrupt (Option Kernel) acknowledged handlers (some k)) [
      | none ↦ none
      | some handled ↦ some (record handled { gic = end_interrupt pi5 acknowledged handled.gic })
    ]
