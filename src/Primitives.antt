-- ===== src/Primitives.antt =====
-- Words that are written in C (primitives.c and search.c): they work on the data stack and on the
-- dictionary of a virtual machine.
pub mod Order
pub mod Structures
pub mod Pictured
use ficl.Dictionary.{Dictionary}
use ficl.Stack.{Stack}

pub record Session : Type 0 where
  pub dictionary : Dictionary
  pub stack : Stack

abbrev pub session : Dictionary → Stack → Session
session d s = record { dictionary = d; stack = s }
