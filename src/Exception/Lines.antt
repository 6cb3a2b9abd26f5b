-- ===== src/Exception/Lines.antt =====
-- The report of `sync_exception_handler` of kernel/arch/aarch64/exception.cpp, as lines of text.
use planetoid_os.Base.{ℕ, ◌/◌, ◌%◌, ◌^◌, ◌||◌, List, [], ◌∷◌, ◌++◌, ◌==◌, if◌then◌else◌}
use planetoid_os.Preempt.{ExceptionContext}
use planetoid_os.Log.{Text, codes}
use planetoid_os.Log.Buffers.{padded}
use planetoid_os.Log.Numbers.{hexadecimal}
use planetoid_os.Exception.Faults.{described}

-- Lines with their tag and ending, as the serial port gets them.
abbrev pub printed : List Text → List Text
printed [] = []
printed (line ∷ lines) = (codes "[ERROR] " ∷ line ∷ codes "\r\n" ∷ []) ++ printed lines

-- The value of a register, with eight hexadecimal digits at least.
abbrev pub register_line : ℕ → Text
register_line value = codes "    0x" ++ padded 8 (hexadecimal value)

abbrev pub headline : (exception_class : ℕ) → Text
headline exception_class =
    if exception_class == 0x00
    then codes "Unknown or undefined instruction"
    else if exception_class == 0x15
    then codes "SVC Instruction"
    else if exception_class == 0x20
    then codes "Instruction abort from lower exception level"
    else if exception_class == 0x21
    then codes "Instruction abort from current exception level"
    else if exception_class == 0x24
    then codes "Data abort from lower exception level"
    else if exception_class == 0x25
    then codes "Data abort from current exception level"
    else codes "Unknown Error"

-- Aborts are described, and those of data accesses name the direction.
abbrev pub details : (esr exception_class : ℕ) → List Text
details esr exception_class =
    let access =
      if esr / 64 % 2 == 0
      then codes "Fault was a read operation"
      else codes "Fault was a write operation" in
    if (exception_class == 0x20) || (exception_class == 0x21)
    then described (esr % 64) ∷ []
    else if (exception_class == 0x24) || (exception_class == 0x25)
    then described (esr % 64) ∷ access ∷ []
    else []

abbrev pub report : ExceptionContext → List Text
report context =
    let exception_class = context.esr / 2 ^ 26 % 64 in
    codes "Sync exception received!"
    ∷ codes "ELR: "
    ∷ register_line context.elr
    ∷ codes "FAR: "
    ∷ register_line context.far
    ∷ codes "ESR: "
    ∷ register_line context.esr
    ∷ codes "SP: "
    ∷ register_line context.sp
    ∷ headline exception_class
    ∷ details context.esr exception_class
