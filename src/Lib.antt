-- ===== src/Lib.antt =====
-- The Schnorr signatures of Scilla, the C++ code of src/cpp, which the interpreter calls to check and to
-- make signatures over the curve secp256k1; the integers of its contracts, the OCaml code of
-- src/lang/base/Integer256.ml and src/lang/base/SafeArith.ml; and the interpreter of a contract's
-- statements and messages, the OCaml code of src/lang/eval/Eval.ml.
--
-- A signature (r, s) of a message m by the key kpub is made from a nonce k and the commitment Q = kG:
-- r = H(Q, kpub, m) and s = k - r * kpriv, modulo the order. It is accepted if sG + r * kpub is not the
-- point at infinity and has the hash r. Keys and signatures are objects that own OpenSSL numbers and
-- points, are written into byte vectors and read back, and are passed to OCaml through three C
-- functions.
--
-- A contract's integers never wrap around: `SafeInt` and `SafeUint` run the unchecked operation and find
-- from its result whether it has overflowed. 256 bit integers are two words of 128 bits of the package
-- stdint, with their own carries, long multiplication and long division.
--
-- A contract is a list of procedures and transitions. A message names a transition by its tag; its entries
-- become the transition's environment, its amount the incoming money. The statements of the transition
-- accept that money, load and store fields, match on values, call procedures that stand before it, and
-- collect messages and events; each statement is charged gas. At the end the amounts of the collected
-- messages are taken off the balance.
--
-- The modules, from the bottom up:
--   Base             outcomes and runs, lists, byte vectors, big-endian numbers
--   OpenSsl          what the code calls of OpenSSL, as a record; `Documented` is the behaviour that its
--                    manual states, `Reliable` a run without failures, `NullContext` the call of
--                    BN_nnmod without a BN_CTX, `Toy` a small group that meets both
--   Serializable     src/cpp/Serializable.h: the number templates `GetNumber` and `SetNumber`
--   BignumSerialize  src/cpp/BIGNUMSerialize.cpp
--   EcPointSerialize src/cpp/ECPOINTSerialize.cpp
--   DataConversion   src/cpp/DataConversion.cpp and DataConversion.h
--   Curve            `struct Curve` and its constructor (src/cpp/Schnorr.h, src/cpp/Schnorr.cpp)
--   PrivKey, PubKey, Signature
--                    src/cpp/PrivKey.cpp, src/cpp/PubKey.cpp, src/cpp/Signature.cpp
--   Sha2             src/cpp/Sha2.h
--   Schnorr          src/cpp/Schnorr.cpp: `gen_key_pair` is `GenKeyPair`; `Sign` is `Schnorr::Sign` and
--                    `Verify` is `Schnorr::Verify`; `Valid` is the specification of a signature
--   CSchnorr         src/cpp/c_schnorr.cpp and c_schnorr.h
--   Integer256       src/lang/base/Integer256.ml: `Uint256` and `Int256` are the modules of that name;
--                    `Documented` is the behaviour of stdint, `Toy` words that have it
--   SafeArith        src/lang/base/SafeArith.ml: `SafeInt` and `SafeUint` are the functors; `Signed` and
--                    `Unsigned` say what they need of their argument, and `Int256` and `Uint256` that the
--                    256 bit integers have it
--   Contract         src/lang/eval/Eval.ml (`Evaluator`, `Messages`), src/lang/eval/EvalUtil.ml
--                    (`Configuration`), src/lang/eval/PatternMatching.ml and the costs of statements of
--                    src/lang/base/Gas.ml (`Statements`), the data of src/lang/base/Syntax.ml (`Syntax`)
--                    and the monad of src/lang/base/MonadUtil.ml (`Exec`). Its arguments are `Kinds`, the
--                    types that the code never looks into, and `Services`, the functions that it calls.
--                    `Rules` and `Yields` are the rules by which the proofs follow a run call by call
-- A constructor is named `new`, `copy` or `from_...`, an assignment `assign`, a comparison `equals`,
-- `less` or `greater`; every other function keeps its name.
--
-- How the code is read. A byte vector is the list of its bytes. A function that calls OpenSSL runs on
-- OpenSSL's state (`Run`); it can also throw, abort or run into undefined behaviour (`Outcome`), such as a
-- null pointer that is handed on or a read outside a buffer. A pointer that can be NULL is an `Option`.
-- `unsigned int` sums keep their wrap-around, `% 2 ^ 32`. Objects are values: the code shares no
-- number between two objects that it changes. The one exception are the maps of a contract, mutable
-- tables that a field and an environment share: such a literal is a reference, and the contents stand in
-- the store. An `unsigned int` that is used as an `int` is negative from 2 ^ 31 on. `Sign` and `Verify`
-- hand NULL to BN_nnmod where the manual wants an allocated BN_CTX: whether the call then returns is a
-- function of its two numbers that nothing else is known of, and where it does not, the run is undefined.
-- Log lines are left out, and `LOG_GENERAL(FATAL, ...)` is
-- an empty macro in these files, so that the code goes on after it. In the OCaml code an exception is an
-- `Option` that is empty (Division_by_zero, Failure) or a value of `Checked`, and the number that a
-- comparison returns is read by its sign. The evaluator's monad is the remaining gas and the store
-- beside a result or an error; `Uint128.add` keeps its wrap-around, `% 2 ^ 128`.
--
-- Loops over bytes are structural. The three loops that wait for a good random number run on fuel: the
-- one of the private key's constructor, and the two of `Sign`, which share one number. No fuel is enough
-- for every generator; the theorems on termination say for which draws how much is. The loop of
-- `to_string` runs on fuel too: a round divides by ten, so that 257 rounds empty every number below
-- 2 ^ 256. The loop of `divrem` counts its 256 digits down.
-- The evaluator of statements runs on fuel, and `handle_message` gives it one more than the number of
-- statements in the transition and in all procedures in scope; that is enough, since a procedure can only
-- call those before it.
--
-- Not modelled: the mutexes, which make each function one step; `PrintPoint`, which only logs;
-- src/cpp/generate_dsa_nonce.c, a copy of OpenSSL's function, whose call is a parameter like the rest of
-- OpenSSL; src/cpp/schnorr.ml and src/cpp/config, the binding for OCaml; `shift_right` of Int256 and `neg`
-- of Uint256, which always fail; of the evaluator, expressions (`exp_eval`), the dictionary of data types,
-- the costs of literals and the module StateService, which are parameters, the texts and places of errors,
-- and the start of a contract (`init_module`); and the rest of the OCaml code: the language front end, the
-- checkers and the runners. The functions of boost that read and write hexadecimal text are a parameter
-- (`DataConversion.Hex`).
pub mod Base
pub mod Serializable
pub mod OpenSsl
pub mod BignumSerialize
pub mod Curve
pub mod EcPointSerialize
pub mod DataConversion
pub mod PrivKey
pub mod PubKey
pub mod Signature
pub mod Sha2
pub mod Schnorr
pub mod CSchnorr
pub mod Integer256
pub mod SafeArith
pub mod Contract
