-- ===== src/Generator.antt =====
-- cpp_cb_generator.cc of src/compiler: the functions that write the header and the source file.
--
-- Each function that is given a printer is modelled by the list of the actions that it makes, in
-- order: assignments to the map of variables, calls of `Print`, and changes of the indentation. The
-- functions read no variable back, so their actions do not depend on the map that they are given.
pub mod Printing
pub mod Header
pub mod Source
pub mod Stub
pub mod Server
pub mod Service
pub mod Sample
pub mod Variables
pub mod Defined
pub mod Decimal
pub mod Indentation
pub mod Namespaces
pub mod Kinds
pub mod Dispatch
