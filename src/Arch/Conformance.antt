-- ===== src/Arch/Conformance.antt =====
-- crates/malleus-arch/src/conformance.rs: the checklist of the ports.
use malleus_rtos.Base.{Bool, true, false, List, [], ◌∷◌, select}
use malleus_rtos.Base.Text.{Text, codes}

pub data Level : Type 0 where
  required required_with_protection measured : Level

pub record Requirement : Type 0 where
  pub id : Text
  pub description : Text
  pub level : Level

abbrev pub requirements : List Requirement
requirements =
    record {
      id = codes "ARCH-CTX-001";
      description =
          codes
            "A task's registers are bit-identical across a suspend/resume cycle, including FPU state when the FPU is enabled.";
      level = Level.required;
    }
    ∷ record {
      id = codes "ARCH-CTX-002";
      description =
          codes
            "A task whose entry function returns lands on the exit trampoline and raises a fault; it never falls off the end of its stack.";
      level = Level.required;
    }
    ∷ record {
      id = codes "ARCH-CTX-003";
      description =
          codes
            "Lazy FPU stacking does not leak one task's floating-point registers into another. Verified with a task that never touches the FPU.";
      level = Level.required;
    }
    ∷ record {
      id = codes "ARCH-CS-001";
      description =
          codes
            "Critical sections nest correctly to depth 8 and restore the exact prior interrupt mask.";
      level = Level.required;
    }
    ∷ record {
      id = codes "ARCH-CS-002";
      description =
          codes
            "enter_below(p) leaves interrupts above priority p live: an ISR above p fires during the section with unchanged latency.";
      level = Level.required;
    }
    ∷ record {
      id = codes "ARCH-TIME-001";
      description =
          codes
            "now() is monotonic across the hardware counter's wrap point, sampled concurrently from a task and an ISR for at least two full wraps.";
      level = Level.required;
    }
    ∷ record {
      id = codes "ARCH-TIME-002";
      description =
          codes
            "An alarm set for a deadline already in the past fires immediately rather than being lost.";
      level = Level.required;
    }
    ∷ record {
      id = codes "ARCH-TIME-003";
      description =
          codes
            "No ticks are lost across a tickless idle period, verified against an external time reference over one hour.";
      level = Level.required;
    }
    ∷ record {
      id = codes "ARCH-MPU-001";
      description =
          codes
            "An unprivileged task reading or writing outside its declared regions faults, and the fault is attributed to the correct task.";
      level = Level.required_with_protection;
    }
    ∷ record {
      id = codes "ARCH-MPU-002";
      description =
          codes
            "No stale region survives a context switch: task B cannot reach task A's stack immediately after A is suspended.";
      level = Level.required_with_protection;
    }
    ∷ record {
      id = codes "ARCH-MPU-003";
      description =
          codes
            "A task cannot reach a peripheral it did not declare a capability for, including via a DMA descriptor it constructed itself.";
      level = Level.required_with_protection;
    }
    ∷ record {
      id = codes "ARCH-FAULT-001";
      description =
          codes
            "Every hardware fault reaches the kernel fault handler with the faulting task, address, and instruction pointer recoverable.";
      level = Level.required;
    }
    ∷ record {
      id = codes "ARCH-FAULT-002";
      description =
          codes "A stack overflow is detected before it corrupts adjacent memory, not after.";
      level = Level.required;
    }
    ∷ record {
      id = codes "BENCH-001";
      description =
          codes
            "Interrupt latency: hardware event to first instruction of the handler. Report min, mean, p99.9, and observed maximum.";
      level = Level.measured;
    }
    ∷ record {
      id = codes "BENCH-002";
      description =
          codes
            "Context switch: last instruction of the outgoing task to first instruction of the incoming one.";
      level = Level.measured;
    }
    ∷ record {
      id = codes "BENCH-003";
      description = codes "Wake-up latency: ISR signals a task to that task running.";
      level = Level.measured;
    }
    ∷ record {
      id = codes "BENCH-004";
      description = codes "Periodic task jitter over one million activations at 1 kHz.";
      level = Level.measured;
    }
    ∷ record {
      id = codes "BENCH-005";
      description = codes "Longest observed critical section inside the kernel.";
      level = Level.measured;
    }
    ∷ []

unfoldable pub is_blocking : Bool → Level → Bool
is_blocking with_protection Level.required = true
is_blocking with_protection Level.required_with_protection = with_protection
is_blocking with_protection Level.measured = false

unfoldable pub blocking : Bool → List Requirement
unfolding is_blocking
blocking with_protection = select (λ r. is_blocking with_protection r.level) requirements
