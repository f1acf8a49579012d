-- ===== src/Lib.antt =====
-- A verification library for ficl, the Forth-inspired command language.
--
-- The program is a threaded interpreter. A virtual machine (vm.c) runs compiled words in one inner
-- loop, `ficlVmInnerLoop`, on a data stack and a return stack of cells (stack.c); double-cell
-- arithmetic (double.c) serves its scaled instructions and the conversion of numbers; words live
-- in a dictionary with hash tables (dictionary.c, hash.c) that the text interpreter searches.
--
-- Common, with its child modules, holds shared notation and lemmas: tests on numbers, lists over
-- the native numbers, bits, powers of two and signed numbers.
-- Cell models `ficlCell` of ficl.h on an LP64 host: a cell is the number of its 64-bit pattern, and
-- signed arithmetic wraps as two's complement does, which is what the source relies on.
-- Double models the portable half of double.c, one definition for each function: `double_add` is
-- `ficl2UnsignedAdd`, `double_divide` is `ficl2UnsignedDivide`, `Double/Signed.divide_symmetric`
-- is `ficl2IntegerDivideSymmetric`, `Double/Floored.divide_floored` is `ficl2IntegerDivideFloored`,
-- and so on. Its loops run on fuel, 64 rounds for the
-- multiplication, 128 and 129 for the two loops of the division; running out is `none`, and the
-- theorems on these loops say that it does not happen.
-- Outcome is what an instruction comes to: a result, an error that `ficlVmThrowError` throws, or an
-- access that C leaves undefined. Memory is the bytes that operands and fetches are read from and
-- that stores go to.
-- Vm models the instructions of `ficlVmInnerLoop`. Check is `ficlStackCheck` of stack.c with the
-- macro `CHECK_STACK`, compiled in as `FICL_ROBUST` of 2 does, the default of ficl.h (ficllocal.h
-- sets 0, which compiles the checks out). A stack is a list, last pushed first, with the number of
-- cells that it has room for. Shuffle has the instructions that only move cells, Compute those that
-- compute, Control the branches, counted loops, literals and moves to and from the return stack.
-- Access has the fetches, the stores and the two address registers, on the bytes of Memory.
-- Stack is `ficlStack` itself, an array with a top pointer behind its fence; Stack/Refinement and
-- Stack/Rolls relate it to the lists of Vm, and Stack/Frames is about the frames of locals.
-- Text has the string comparison of utility.c, and Number the conversions `ficlLtoa`, `ficlUltoa` and
-- `ficlVmParseNumber`; a conversion runs on 64 rounds of fuel, which serve every cell since a base is
-- at least 2. Input is `ficlTIB` and the parsing of words and strings out of it.
-- Hash models hash.c: the words stand in a heap by address, a chain is the list of its addresses,
-- and the tables that a table inherits from are a list. Dictionary models dictionary.c on top of it;
-- appended bytes go to a memory, headers and tables to heaps of their own, and the lock is a count.
-- Interpreter is `ficlVmParseWord` with the checks of the dictionary in vm.c: it gives the word to
-- run to its caller, where the source calls the inner loop.
-- Vm/Jumps is the pass `ficlVmOptimizeJumpToJump` over code that is an array of cells; each round
-- takes the check of one branch away, so that rounds for one branch more than there are serve.
-- Bits models bit.c on arrays of bytes, and Lz models lzcompress.c and lzuncompress.c on top of it. A
-- pointer of theirs is a position. The compressing loop has a round for each byte and the
-- uncompressing loop one for each bit of the stream, since a round takes one byte or nine bits at
-- least.
-- Primitives has words that are written in C. They share a session, the dictionary and the data
-- stack of a virtual machine. Primitives/Order models search.c. Primitives/Structures has the words
-- of primitives.c that compile conditionals and loops: Cells is about the cells that they store,
-- Branches and Tests about single words, Conditional, Backward, Pretested and Loops about whole
-- structures, and Runs puts them together with the branches of Vm/Control (Vm/Control/Fetch, which
-- has the fetch of the inner loop and the numbers of these instructions, and Vm/Control/Landings):
-- the compiled branches have their check still, which these theorems do not run.
-- Primitives/Pictured has `<#`, `#`, `#s`, `#>`, `hold`, `sign` and `>number`; `#s` runs on 128
-- rounds of fuel, one for each bit of a double.
-- Examples, with its child modules, applies the theorems at concrete inputs.
--
-- Not modelled: the 128-bit half of double.c; the string and floating-point instructions, those
-- that append to the dictionary, and of the dispatch the cases that Vm/Control/Fetch does not name;
-- the loop of `ficlVmExecuteString`; of the primitives those that Primitives does not name, and of
-- search.c the names and parents of wordlists; what prints or allocates; the platform layer, which
-- is system calls; and vendored code.
pub mod Common
pub mod Cell
pub mod Double
pub mod Outcome
pub mod Memory
pub mod Vm
pub mod Stack
pub mod Text
pub mod Hash
pub mod Dictionary
pub mod Examples
pub mod Number
pub mod Input
pub mod Interpreter
pub mod Bits
pub mod Lz
pub mod Primitives
